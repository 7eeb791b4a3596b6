-- ===== src/Tasked/Sweep.antt =====
-- The tasks that a round runs, and those that it leaves.
use cocoyaxi.Base.{
  ℕ, zero, suc, ◌≤◌, Bool, true, false, List, [], ◌∷◌, ◌++◌, length, Option, some, none,
  if◌then◌else◌, ◌≡◌, refl, ap, ◌∙◌, Bool-cases, inl, inr, arith,
}
use mathlib.Core.List.{Perm, filter_map}
use mathlib.Core.List.Perm
use cocoyaxi.Tasked.{
  Task, Tasked, lower, is_due, again, is_positive, last_first, fill_gap, sweep, tick, round,
}

-- Run in this round, with `sec` seconds since the last.
abbrev pub runs : ℕ → Task → Bool
runs sec t = is_due (lower sec t)

-- The function of a task that is run.
abbrev pub runs_fun : ℕ → Task → Option ℕ
runs_fun sec t = if runs sec t then some t.fun else none

-- What is left of a task: one that is not run waits `sec` seconds less, and one that was run waits for
-- its period, if it has one.
abbrev pub leaves : ℕ → Task → Option Task
leaves sec t =
    if runs sec t
    then if is_positive t.period then some (again (lower sec t)) else none
    else some (lower sec t)

-- Every task that is due is run once, in some order, and what is left of all is kept, in some order.
pub record Sweeps (sec : ℕ) (ts : List Task) (r : List ℕ × List Task) : Type 0 where
  pub run : Perm r.0 (filter_map (runs_fun sec) ts)
  pub left : Perm r.1 (filter_map (leaves sec) ts)

moved_first :
    (t : Task) (moved ts : List Task)
    → Perm moved ts
    → Perm (elim moved as (λ m. List Task) [ [] ↦ t ∷ [] | l ∷ rest ↦ l ∷ t ∷ rest ]) (t ∷ ts)
moved_first t [] ts p = Perm.cons t p
moved_first t (l ∷ rest) ts p = Perm.trans (Perm.swap t l rest) (Perm.cons t p)

length_moved :
    (t : Task) (moved : List Task)
    → length (elim moved as (λ m. List Task) [ [] ↦ t ∷ [] | l ∷ rest ↦ l ∷ t ∷ rest ])
      ≡ suc (length moved)
length_moved t [] = refl
length_moved t (l ∷ rest) = refl

last_first-Perm : (t : Task) (ts : List Task) → Perm (last_first t ts) (t ∷ ts)
last_first-Perm t [] = Perm.refl (t ∷ [])
last_first-Perm t (t' ∷ ts) = moved_first t (last_first t' ts) (t' ∷ ts) (last_first-Perm t' ts)

fill_gap-Perm : (ts : List Task) → Perm (fill_gap ts) ts
fill_gap-Perm [] = Perm.refl []
fill_gap-Perm (t ∷ ts) = last_first-Perm t ts

length-last_first : (t : Task) (ts : List Task) → length (last_first t ts) ≡ suc (length ts)
length-last_first t [] = refl
length-last_first t (t' ∷ ts) = length_moved t (last_first t' ts) ∙ ap suc (length-last_first t' ts)

length-fill_gap : (ts : List Task) → length (fill_gap ts) ≡ length ts
length-fill_gap [] = refl
length-fill_gap (t ∷ ts) = length-last_first t ts

module _ (sec : ℕ) where
  kept-Sweeps :
      (t : Task) (ts : List Task) (r : List ℕ × List Task)
      → runs sec t ≡ false
      → Sweeps sec ts r
      → Sweeps sec (t ∷ ts) (r.0, lower sec t ∷ r.1)
  unfolding filter_map
  kept-Sweeps t ts r e h = record { run = rw e h.run; left = rw e (Perm.cons _ h.left) }

  again-Sweeps :
      (t : Task) (ts : List Task) (r : List ℕ × List Task)
      → runs sec t ≡ true
      → is_positive t.period ≡ true
      → Sweeps sec ts r
      → Sweeps sec (t ∷ ts) (t.fun ∷ r.0, again (lower sec t) ∷ r.1)
  unfolding filter_map
  again-Sweeps t ts r e f h = record {
    run = rw e (Perm.cons _ h.run);
    left = rw e (rw f (Perm.cons _ h.left));
  }

  removed-Sweeps :
      (t : Task) (ts : List Task) (r : List ℕ × List Task)
      → runs sec t ≡ true
      → is_positive t.period ≡ false
      → Sweeps sec (fill_gap ts) r
      → Sweeps sec (t ∷ ts) (t.fun ∷ r.0, r.1)
  unfolding filter_map
  removed-Sweeps t ts r e f h = record {
    run = rw e (Perm.cons _ (Perm.trans h.run (Perm.filter_map (runs_fun sec) (fill_gap-Perm ts))));
    left = rw e (rw f (Perm.trans h.left (Perm.filter_map (leaves sec) (fill_gap-Perm ts))));
  }

  sweep-Sweeps : (n : ℕ) (ts : List Task) → length ts ≤ n → Sweeps sec ts (sweep n sec ts)
  unfolding sweep filter_map
  sweep-Sweeps zero [] h = record { run = Perm.refl []; left = Perm.refl [] }
  sweep-Sweeps zero (t ∷ ts) h = absurd (omega arith)
  sweep-Sweeps (suc n) [] h = record { run = Perm.refl []; left = Perm.refl [] }
  sweep-Sweeps (suc n) (t ∷ ts) h = elim (Bool-cases (runs sec t)) [
    | inr e ↦ rw e (kept-Sweeps t ts (sweep n sec ts) e (sweep-Sweeps n ts (omega arith)))
    | inl e ↦ elim (Bool-cases (is_positive t.period)) [
      | inl f ↦
          rw e (rw f (again-Sweeps t ts (sweep n sec ts) e f (sweep-Sweeps n ts (omega arith))))
      | inr f ↦ rw e (
          rw f (
            removed-Sweeps t ts (sweep n sec (fill_gap ts)) e f
              (sweep-Sweeps n (fill_gap ts) (omega (arith, length-fill_gap ts)))))
    ]
  ]

-- A round runs every task that is due after the seconds of its clock, the new ones too, each once, and
-- leaves the others with their seconds less, and those that have a period with their period to wait.
pub round-Sweeps :
    (elapsed : ℕ) (s : Tasked)
    → Sweeps
        (tick (s.ms, s.sec)).1
        (s.tasks ++ s.new_tasks)
        ((round elapsed s).0, (round elapsed s).1.tasks)
unfolding round
round-Sweeps elapsed s =
    sweep-Sweeps (tick (s.ms, s.sec)).1 (length (s.tasks ++ s.new_tasks)) (s.tasks ++ s.new_tasks)
      (omega arith)
