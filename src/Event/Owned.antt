-- ===== src/Event/Owned.antt =====
-- The waiters of `event_impl` (src/co/co.cc), each held by the coroutine that it wakes.
use cocoyaxi.Base.{
  ℕ, ◌<◌, ◌^◌, true, false, List, [], ◌∷◌, ◌++◌, ◌==◌, if◌then◌else◌, Bool-cases, All, ◌≡◌, inl,
  inr, refl, sym, ap, ◌∙◌, ==_refl,
}
use cocoyaxi.Chan.Waiters.{WaitState, st_wait, st_ready, st_timeout, is_wait}
use cocoyaxi.Event.Impl.{Waitx, is_timeout, drop_timed_out, take_waitx, expire_all}
use cocoyaxi.Event.Signals.{live_cos}
use cocoyaxi.Event.Runs.{Users, without, left_waiting}

-- A waiter wakes the one that holds it.
abbrev pub IsOwn : Waitx → Type 0
IsOwn w = w.holder ≡ w.co

-- The waiters that have not timed out are those of the coroutines that wait, in order; the threads
-- that sleep are counted in `_wt`; and if the event is signaled, nobody waits or sleeps.
pub record IsHeard (y : Users) : Type 0 where
  pub own : All IsOwn y.event.wc
  pub live : live_cos y.event.wc ≡ y.waiting
  pub sleeping : y.event.wt ≡ y.asleep
  pub range : y.asleep < 2 ^ 32
  pub nobody : y.event.signaled ≡ true → (y.waiting ≡ []) × (y.asleep ≡ 0)

pub left_waiting_all : (ws : List ℕ) → left_waiting ws ws ≡ []
left_waiting_all [] = refl
left_waiting_all (w ∷ ws) = rw (==_refl w) (left_waiting_all ws)

pub append-IsOwn : (ws : List Waitx) (w : Waitx) → All IsOwn ws → IsOwn w → All IsOwn (ws ++ w ∷ [])
append-IsOwn [] w h k = (k, tt)
append-IsOwn (v ∷ ws) w h k = (h.0, append-IsOwn ws w h.1 k)

pub drop_timed_out-IsOwn : (ws : List Waitx) → All IsOwn ws → All IsOwn (drop_timed_out ws)
unfolding drop_timed_out
drop_timed_out-IsOwn [] h = tt
drop_timed_out-IsOwn (w ∷ ws) h = elim (Bool-cases (is_timeout w.state)) [
  | inl e ↦ rw e (drop_timed_out-IsOwn ws h.1)
  | inr e ↦ rw e h
]

pub take_waitx-holder : (co : ℕ) (ws : List Waitx) → (take_waitx co ws).holder ≡ co
unfolding take_waitx
take_waitx-holder co [] = refl
take_waitx-holder co (w ∷ ws) = elim (Bool-cases (is_timeout w.state)) [
  | inl e ↦ rw e refl
  | inr e ↦ rw e refl
]

pub expire_all-IsOwn : (co : ℕ) (ws : List Waitx) → All IsOwn ws → All IsOwn (expire_all co ws)
unfolding expire_all
expire_all-IsOwn co [] h = tt
expire_all-IsOwn co (w ∷ ws) h = elim (Bool-cases (w.holder == co)) [
  | inl e ↦ rw e (h.0, expire_all-IsOwn co ws h.1)
  | inr e ↦ rw e (h.0, expire_all-IsOwn co ws h.1)
]

expired_state : (s : WaitState) → is_wait (if is_wait s then st_timeout else s) ≡ false
expired_state st_wait = refl
expired_state st_ready = refl
expired_state st_timeout = refl

pub live_cos-expire_all :
    (co : ℕ) (ws : List Waitx)
    → All IsOwn ws
    → live_cos (expire_all co ws) ≡ without co (live_cos ws)
unfolding expire_all
live_cos-expire_all co [] h = refl
live_cos-expire_all co (w ∷ ws) h =
    let same : (w.co == co) ≡ (w.holder == co) = ap (λ x. x == co) (sym h.0) in
    let later = live_cos-expire_all co ws h.1 in
    elim (Bool-cases (w.holder == co)) [
      | inl e ↦
          rw (e, expired_state w.state)
            (elim (Bool-cases (is_wait w.state)) [
              | inl t ↦ rw t (rw (same ∙ e) later)
              | inr t ↦ rw t later
            ])
      | inr e ↦ rw e (elim (Bool-cases (is_wait w.state)) [
        | inl t ↦ rw t (rw (same ∙ e) (ap (λ l. w.co ∷ l) later))
        | inr t ↦ rw t later
      ])
    ]
