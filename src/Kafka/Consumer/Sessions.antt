-- ===== src/Kafka/Consumer/Sessions.antt =====
-- The channel `Ready` over the sessions of a consumer: it is closed at most once, and who waits for
-- the channel of a session waits for ever if that session is not set up.
use vuln4shift_backend.Prelude.{
  ℕ, ◌≤◌, ◌<◌, ◌≡◌, refl, Bool, true, false, ◌||◌, ◌&&◌, if◌then◌else◌, Option, none, some, List,
  [], ◌∷◌, arith, nat_eq, nat_beq, contains,
}
use vuln4shift_backend.Kafka.Consumer.{
  Session, Ready, setup, after_setup, make_ready, serve_sessions,
}

-- The channels from the current one on are open.
abbrev pub IsOpen : Ready → Type 0
IsOpen r = (k : ℕ) → r.current ≤ k → contains r.closed k ≡ false

-- The sessions end with no panic, and leave a channel as it is.
abbrev pub Leaves : ℕ → Bool → Option Ready → Type 0
Leaves k b none = true ≡ false
Leaves k b (some r) = contains r.closed k ≡ b

abbrev pub set_up_first : List Session → Bool
set_up_first [] = false
set_up_first (s ∷ sessions) = s.set_up

abbrev closed_by : Bool → Ready → Ready
closed_by true r = record { current = r.current; closed = r.current ∷ r.closed }
closed_by false r = r

after_setup-closed_by : (b : Bool) (r : Ready) → IsOpen r → after_setup b r ≡ some (closed_by b r)
unfolding after_setup setup
after_setup-closed_by true r fresh = ground (arith, fresh r.current)
after_setup-closed_by false r fresh = refl

make_ready-IsOpen : (b : Bool) (r : Ready) → IsOpen r → IsOpen (make_ready (closed_by b r))
unfolding make_ready
make_ready-IsOpen true r fresh k above = ground (arith, fresh k)
make_ready-IsOpen false r fresh k above = ground (arith, fresh k)

closed_by-Leaves :
    (b : Bool) (r : Ready) (k : ℕ)
    → contains (closed_by b r).closed k ≡ ((b && nat_beq r.current k) || contains r.closed k)
closed_by-Leaves true r k = refl
closed_by-Leaves false r k = refl

serve_sessions-step :
    (s : Session) (sessions : List Session) (r : Ready)
    → IsOpen r
    → serve_sessions (s ∷ sessions) r ≡ (
        if s.cancelled
        then some (closed_by s.set_up r)
        else serve_sessions sessions (make_ready (closed_by s.set_up r)))
unfolding serve_sessions
serve_sessions-step s sessions r fresh =
    rw (after_setup-closed_by s.set_up r fresh, serve_sessions) refl

Leaves-if :
    (k : ℕ) (x b : Bool) (o p : Option Ready)
    → Leaves k x o
    → Leaves k x p
    → Leaves k x (if b then o else p)
Leaves-if k x true o p h h' = h
Leaves-if k x false o p h h' = h'

Leaves-same : (k : ℕ) (x y : Bool) → x ≡ y → (o : Option Ready) → Leaves k x o → Leaves k y o
Leaves-same k x y same o h = rw (← same) h

made-newer :
    (b : Bool) (r : Ready) (k : ℕ) → k ≤ r.current → k < (make_ready (closed_by b r)).current
unfolding make_ready
made-newer true r k below = omega arith
made-newer false r k below = omega arith

-- An older channel stays as it is.
older-Leaves :
    (sessions : List Session) (r : Ready) (k : ℕ)
    → IsOpen r
    → k < r.current
    → Leaves k (contains r.closed k) (serve_sessions sessions r)
unfolding serve_sessions
older-Leaves [] r k fresh below = refl
older-Leaves (s ∷ sessions) r k fresh below =
    let r' = closed_by s.set_up r in
    let same : contains r'.closed k ≡ contains r.closed k =
      ground (arith, closed_by-Leaves s.set_up r k) in
    rw (serve_sessions-step s sessions r fresh) (
      Leaves-if k (contains r.closed k) s.cancelled (some r') _ same (
        rw (← same) (
          older-Leaves sessions (make_ready r') k (make_ready-IsOpen s.set_up r fresh)
            (made-newer s.set_up r k (omega (arith, below))))))

-- `Setup` never closes a closed channel, however the sessions go, and the channel that `Serve` finds
-- when it begins to wait is closed exactly if the session then running is set up: no later one
-- closes it.
pub serve_sessions-Leaves :
    (sessions : List Session) (r : Ready)
    → IsOpen r
    → Leaves r.current (set_up_first sessions) (serve_sessions sessions r)
unfolding serve_sessions
serve_sessions-Leaves [] r fresh = fresh r.current (omega arith)
serve_sessions-Leaves (s ∷ sessions) r fresh =
    let r' = closed_by s.set_up r in
    let same : contains r'.closed r.current ≡ s.set_up =
      ground (arith, closed_by-Leaves s.set_up r r.current, fresh r.current (omega arith)) in
    rw (serve_sessions-step s sessions r fresh) (
      Leaves-if r.current s.set_up s.cancelled (some r') _ same (
        Leaves-same r.current _ s.set_up same _ (
          older-Leaves sessions (make_ready r') r.current (make_ready-IsOpen s.set_up r fresh)
            (made-newer s.set_up r r.current (omega arith)))))
