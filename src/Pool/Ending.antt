-- ===== src/Pool/Ending.antt =====
-- What ending the claims does to the pool of internal/infrastructure/worker/pool.go.
use recording.Prelude.{
  ℕ, ◌+◌, ◌≤◌, ◌≡◌, refl, sym, subst, Bool, true, false, ◌||◌, List, [], ◌∷◌, Option, none, some,
  some-injective, arith, if◌then◌else◌, map,
}
use recording.Pool.{
  Phase, idle, at_top, in_round, waiting, returned, Worker, Pool, run_done, claim_done, start,
  moved_to, stop_claims, cancel_both, note_stopped, woken, notify, drain, stop, Move, see_done,
  round_ends, take_wake, tick, next, move, Moves, first, later, Call, starts, notifies, drains,
  stops, parent_ends, Run, here, call, moved,
}

-- The moves that are left to a worker once the claims have ended.
abbrev pub left : Phase → ℕ
left idle = 0
left at_top = 1
left waiting = 2
left in_round = 3
left returned = 0

abbrev pub moves_left : List Worker → ℕ
moves_left [] = 0
moves_left (w ∷ ws) = left w.phase + moves_left ws

abbrev pub round_of : Phase → ℕ
round_of in_round = 1
round_of _ = 0

abbrev pub rounds : List Worker → ℕ
rounds [] = 0
rounds (w ∷ ws) = round_of w.phase + rounds ws

abbrev Ends : Phase → Phase → Type 0
Ends before after = (1 + left after ≤ left before) × (round_of after ≤ round_of before)

next-Ends :
    (m : Move) (ph : Phase) (wake : Bool) (after : Phase)
    → next true m ph wake ≡ some after
    → Ends ph after
unfolding next
next-Ends see_done at_top wake after e = (ground arith, ground arith)
next-Ends see_done waiting wake after e = (ground arith, ground arith)
next-Ends round_ends in_round wake after e = (ground arith, ground arith)
next-Ends tick waiting wake after e = (ground arith, ground arith)
next-Ends take_wake waiting true after e = (ground arith, ground arith)
next-Ends take_wake waiting false after e = absurd (cc e)
next-Ends _ idle wake after e = absurd (cc e)
next-Ends _ _ wake after e = absurd (cc e)

moved_to-Ends :
    (m : Move) (w v : Worker) (o : Option Phase)
    → moved_to m w o ≡ some v
    → ((ph : Phase) → o ≡ some ph → Ends w.phase ph)
    → Ends w.phase v.phase
moved_to-Ends m w v none e h = absurd (cc e)
moved_to-Ends m w v (some ph) e h =
    subst (λ x. Ends w.phase x.phase) (some-injective _ _ e) (h ph refl)

-- What one move of a worker does, after the claims have ended.
move-Ends : (m : Move) (w v : Worker) → move true m w ≡ some v → Ends w.phase v.phase
unfolding move
move-Ends m w v e = moved_to-Ends m w v (next true m w.phase w.wake) e (next-Ends m w.phase w.wake)

Moves-Ends :
    (ws vs : List Worker)
    → Moves true ws vs
    → (1 + moves_left vs ≤ moves_left ws) × (rounds vs ≤ rounds ws)
Moves-Ends _ _ (first m w v ws e) =
    let h = move-Ends m w v e in (omega (arith, h.0), omega (arith, h.1))
Moves-Ends _ _ (later w ws vs rest) =
    let h = Moves-Ends ws vs rest in (omega (arith, h.0), omega (arith, h.1))

-- Waking changes no phase.
moves_left-woken : (ws : List Worker) → moves_left (map woken ws) ≡ moves_left ws
moves_left-woken [] = refl
moves_left-woken (w ∷ ws) = omega (arith, moves_left-woken ws)

rounds-woken : (ws : List Worker) → rounds (map woken ws) ≡ rounds ws
rounds-woken [] = refl
rounds-woken (w ∷ ws) = omega (arith, rounds-woken ws)

-- The pool runs, and may claim no more.
abbrev pub IsEnding : Pool → Type 0
IsEnding p = (p.started ≡ true) × (claim_done p ≡ true)

-- What a call keeps, once the claims have ended.
abbrev Kept : Pool → Pool → Type 0
Kept p q =
    IsEnding q
    × (moves_left q.workers ≡ moves_left p.workers)
    × (rounds q.workers ≡ rounds p.workers)

pub or_true : (a : Bool) → (a || true) ≡ true
or_true true = refl
or_true false = refl

pub if-both {ℓ κ} :
    {A : Type ℓ} (P : A → Type κ) (b : Bool) {x y : A} → P x → P y → P (if b then x else y)
if-both P true px py = px
if-both P false px py = py

started_again : (p : Pool) → p.started ≡ true → start p ≡ p
unfolding start
started_again p h = rw h refl

stop_claims-Kept : (p : Pool) → IsEnding p → Kept p (stop_claims p)
stop_claims-Kept p h = ((h.0, or_true (run_done p)), refl, refl)

cancel_both-Kept : (p : Pool) → IsEnding p → Kept p (cancel_both (note_stopped p))
cancel_both-Kept p h = ((h.0, or_true (p.parent_done || true)), refl, refl)

drain-Kept : (p : Pool) → IsEnding p → Kept p (drain p)
unfolding drain
drain-Kept p h =
    if-both (Kept p) p.started (if-both (Kept p) p.drained (h, refl, refl) (stop_claims-Kept p h))
      (h, refl, refl)

stop-Kept : (p : Pool) → IsEnding p → Kept p (stop p)
unfolding stop
stop-Kept p h =
    if-both (Kept p) p.started (if-both (Kept p) p.stopped (h, refl, refl) (cancel_both-Kept p h))
      (h, refl, refl)

notify-Kept : (p : Pool) → IsEnding p → Kept p (notify p)
unfolding notify
notify-Kept p h = (h, moves_left-woken p.workers, rounds-woken p.workers)

Call-Kept : {p q : Pool} → Call p q → IsEnding p → Kept p q
Call-Kept (starts p) h = subst (Kept p) (sym (started_again p h.0)) (h, refl, refl)
Call-Kept (notifies p) h = notify-Kept p h
Call-Kept (drains p) h = drain-Kept p h
Call-Kept (stops p) h = stop-Kept p h
Call-Kept (parent_ends p) h = ((h.0, refl), refl, refl)

moved-Ends :
    (p : Pool) (ws : List Worker)
    → Moves (claim_done p) p.workers ws
    → IsEnding p
    → (1 + moves_left ws ≤ moves_left p.workers) × (rounds ws ≤ rounds p.workers)
moved-Ends p ws m h = Moves-Ends p.workers ws (subst (λ d. Moves d p.workers ws) h.1 m)

-- Once the claims have ended, a run has at most the moves that were left, and no further round.
pub Run-Ends :
    {p r : Pool} {n : ℕ}
    → Run p n r
    → IsEnding p
    → (n + moves_left r.workers ≤ moves_left p.workers)
      × (rounds r.workers ≤ rounds p.workers)
      × IsEnding r
Run-Ends here h = (omega arith, omega arith, h)
Run-Ends (call q c rest) h =
    let k = Call-Kept c h in
    let g = Run-Ends rest k.0 in (omega (arith, g.0, k.1), omega (arith, g.1, k.2), g.2)
Run-Ends (moved p ws m rest) h =
    let k = moved-Ends p ws m h in
    let g = Run-Ends rest h in (omega (arith, g.0, k.0), omega (arith, g.1, k.1), g.2)
