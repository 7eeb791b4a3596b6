-- ===== src/Chan/Waiters/Kinds.antt =====
-- What the loops over the wait queue keep of it.
use cocoyaxi.Base.{
  ℕ, Bool, Option, none, some, List, [], ◌∷◌, ◌++◌, All, Bool-cases, ◌≡◌, inl, inr, refl, arith,
}
use cocoyaxi.Chan.Waiters.{
  Kind, Waiter, is_live, is_wait, pop_live, time_out, time_out_all, shut_all, notices_read,
  notices_written,
}

module _ {V : Type 0} where
  -- All of the queue wait for the same operation.
  abbrev pub AreAll : Kind → List (Waiter V) → Type 0
  AreAll k = All (λ w. w.kind ≡ k)

  -- Those that are left after one is popped; if all have timed out, none.
  abbrev pub left_of : Option (Waiter V × List (Waiter V)) → List (Waiter V)
  left_of none = []
  left_of (some (w, ws)) = ws

  pub pop_live-AreAll :
      (k : Kind) (infinite : Bool) (ws : List (Waiter V))
      → AreAll k ws
      → AreAll k (left_of (pop_live infinite ws))
  unfolding pop_live
  pop_live-AreAll k infinite [] h = tt
  pop_live-AreAll k infinite (w ∷ ws) h = elim (Bool-cases (is_live infinite w)) [
    | inl e ↦ rw e h.1
    | inr e ↦ rw e (pop_live-AreAll k infinite ws h.1)
  ]

  pub append-AreAll :
      (k : Kind) (ws : List (Waiter V)) (w : Waiter V)
      → AreAll k ws
      → w.kind ≡ k
      → AreAll k (ws ++ w ∷ [])
  append-AreAll k [] w h e = (e, tt)
  append-AreAll k (x ∷ ws) w h e = (h.0, append-AreAll k ws w h.1 e)

  time_out-kind : (who : ℕ) (w : Waiter V) → (time_out who w).kind ≡ w.kind
  time_out-kind who w = ground arith

  pub time_out_all-AreAll :
      (k : Kind) (who : ℕ) (ws : List (Waiter V)) → AreAll k ws → AreAll k (time_out_all who ws)
  unfolding time_out_all
  time_out_all-AreAll k who [] h = tt
  time_out_all-AreAll k who (w ∷ ws) h =
      (rw (time_out-kind who w) h.0, time_out_all-AreAll k who ws h.1)

  -- `close` moves no object.
  pub shut_all-silent :
      (ws : List (Waiter V))
      → (notices_read (shut_all ws) ≡ []) × (notices_written (shut_all ws) ≡ [])
  unfolding shut_all
  shut_all-silent [] = (refl, refl)
  shut_all-silent (w ∷ ws) = elim (Bool-cases (is_wait w.state)) [
    | inl e ↦ rw e (shut_all-silent ws)
    | inr e ↦ rw e (shut_all-silent ws)
  ]

  pub time_out_all-nil : (who : ℕ) (ws : List (Waiter V)) → ws ≡ [] → time_out_all who ws ≡ []
  unfolding time_out_all
  time_out_all-nil who ws e = rw e refl
