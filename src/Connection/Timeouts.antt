-- ===== src/Connection/Timeouts.antt =====
-- crates/lockframe-core/src/connection.rs: what `tick` does, and what the heartbeats do to the idle
-- timeout.
use kalandra.Prelude.{
  ℕ, ◌+◌, ◌-◌, ◌≤◌, ◌<◌, ◌≡◌, ◌≢◌, ◌↔◌, refl, sym, ap, ◌∙◌, ltb, leb, Bool-cases, Option-cases, inl,
  inr, false, Option, none, some, List, [], ◌∷◌, All, arith, subst, le→ltb_false, ltb→lt,
}
use kalandra.Connection.{
  Connection, ConnectionConfig, ConnectionState, authenticated, closed, tick, check_timeout,
  exceeded, timeout_of, heartbeat, heartbeat_due,
}

heartbeat-state :
    (s : ConnectionState) (now : ℕ) (c : Connection) → (heartbeat s now c).1.state ≡ c.state
heartbeat-state authenticated now c = elim (Bool-cases (heartbeat_due c now c.last_heartbeat)) [
  | inl due ↦ rw due refl
  | inr early ↦ rw early refl
]
heartbeat-state _ now c = refl

-- A tick closes an open connection exactly when its state has a timeout, and more than that has
-- passed since the last activity.
pub tick-closes_iff :
    (now : ℕ) (c : Connection)
    → c.state ≢ closed
    → ((tick now c).1.state ≡ closed)
      ↔ ((limit : ℕ) × (timeout_of c.config c.state ≡ some limit) × (limit < now - c.last_activity))
unfolding tick check_timeout
tick-closes_iff now c open_yet = elim (Option-cases (timeout_of c.config c.state)) [
  | inl untimed ↦ rw untimed (
    λ e. elim (open_yet (sym (heartbeat-state c.state now c) ∙ e)) [ ],
    λ (limit, found, late). cc,
  )
  | inr (limit, timed) ↦ elim (Bool-cases (ltb limit (now - c.last_activity))) [
    | inl late ↦
        rw (timed, late) (λ _. (limit, refl, ltb→lt limit (now - c.last_activity) late), λ _. refl)
    | inr early ↦
        rw (timed, early)
          (
            λ e. elim (open_yet (sym (heartbeat-state c.state now c) ∙ e)) [ ],
            λ (other, found, late).
                let same : limit ≡ other = cc in ground (arith, same, late, early),
          )
  ]
]

-- An authenticated connection that has sent a heartbeat, at most one interval ago.
pub record IsBeating (config : ConnectionConfig) (now : ℕ) (c : Connection) : Type 0 where
  pub config_is : c.config ≡ config
  pub authenticated : c.state ≡ authenticated
  pub beat : ℕ
  pub last : c.last_heartbeat ≡ some beat
  pub active : beat ≤ c.last_activity
  pub recent : now ≤ beat + config.heartbeat_interval

heartbeat-IsBeating :
    (config : ConnectionConfig) (now : ℕ) (c : Connection) (beat : ℕ)
    → c.config ≡ config
    → c.state ≡ authenticated
    → c.last_heartbeat ≡ some beat
    → beat ≤ c.last_activity
    → IsBeating config now (heartbeat authenticated now c).1
heartbeat-IsBeating config now c beat same inside last active =
    elim (Bool-cases (heartbeat_due c now c.last_heartbeat)) [
      | inl due ↦ rw due (record {
        config_is = same;
        authenticated = inside;
        beat = now;
        last = refl;
        active = omega arith;
        recent = omega arith;
      })
      | inr early ↦
          let due_not : leb c.config.heartbeat_interval (now - beat) ≡ false =
            subst (λ (o : Option ℕ). heartbeat_due c now o ≡ false) last early in
          let interval : c.config.heartbeat_interval ≡ config.heartbeat_interval =
            ap (λ (k : ConnectionConfig). k.heartbeat_interval) same in
          rw early (record {
            config_is = same;
            authenticated = inside;
            beat = beat;
            last = last;
            active = active;
            recent = ground (arith, due_not, interval);
          })
    ]

tick-IsBeating :
    (config : ConnectionConfig) (now gap : ℕ) (c : Connection)
    → config.heartbeat_interval + gap ≤ config.idle_timeout
    → IsBeating config now c
    → IsBeating config (now + gap) (tick (now + gap) c).1
unfolding tick check_timeout
tick-IsBeating config now gap c short v =
    let at : ℕ = now + gap in
    let calm : exceeded (at - c.last_activity) (timeout_of c.config c.state) ≡ none =
      rw
        (
          v.config_is,
          v.authenticated,
          le→ltb_false config.idle_timeout (at - c.last_activity)
              (omega (arith, v.active, v.recent, short)),
        )
        refl in
    rw calm (
      subst (λ (s : ConnectionState). IsBeating config at (heartbeat s at c).1)
        (sym v.authenticated)
        (heartbeat-IsBeating config at c v.beat v.config_is v.authenticated v.last v.active))

-- Ticks with the given gaps between them.
abbrev pub tick_on : ℕ → List ℕ → Connection → Connection
tick_on now [] c = c
tick_on now (gap ∷ gaps) c = tick_on (now + gap) gaps (tick (now + gap) c).1

-- An authenticated connection that has sent a heartbeat at most one interval ago stays
-- authenticated under any sequence of ticks, though its peer sends nothing, when every gap between
-- ticks and one heartbeat interval together fit the idle timeout.
pub heartbeats_defeat_idle_timeout :
    (config : ConnectionConfig) (now : ℕ) (gaps : List ℕ) (c : Connection)
    → All (λ gap. config.heartbeat_interval + gap ≤ config.idle_timeout) gaps
    → IsBeating config now c
    → (tick_on now gaps c).state ≡ authenticated
heartbeats_defeat_idle_timeout config now [] c short v = v.authenticated
heartbeats_defeat_idle_timeout config now (gap ∷ gaps) c short v =
    heartbeats_defeat_idle_timeout config (now + gap) gaps (tick (now + gap) c).1 short.1
      (tick-IsBeating config now gap c short.0 v)
