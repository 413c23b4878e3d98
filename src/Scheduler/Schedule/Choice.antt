-- ===== src/Scheduler/Schedule/Choice.antt =====
-- scheduler.rs: which task `next_ready_after` chooses.
use vlad_os.Base.{
  ltb, ◌==◌, ltb→lt, ltb→le, Bool-cases, Option-cases, length, get_elem?, get_elem?_lt, ℕ, zero,
  suc, ◌+◌, ◌-◌, ◌%◌, ◌≤◌, ◌<◌, ◌≡◌, refl, subst, inl, inr, true, false, Option, none, some, List,
  [], ◌∷◌, arith,
}
use native.Mathlib.Nat.{mod-eq_of_lt}
use vlad_os.Task.{ready, Task}
use vlad_os.Scheduler.Schedule.{is_ready_at, next_ready_after, scan_ready}

-- The index that is `offset` places behind `start`, going round.
abbrev pub behind : List Task → ℕ → ℕ → ℕ
behind tasks start offset = (start + offset) % length tasks

-- What a scan over the offsets from `offset` on finds: the first ready task among them, or none
-- and no task among them is ready.
abbrev pub Finds : List Task → ℕ → ℕ → ℕ → Option ℕ → Type 0
Finds tasks start left offset none =
    (d : ℕ) → offset ≤ d → d < offset + left → is_ready_at tasks (behind tasks start d) ≡ false
Finds tasks start left offset (some index) =
    (d : ℕ) × (offset ≤ d)
    × (d < offset + left)
    × (index ≡ behind tasks start d)
    × (is_ready_at tasks index ≡ true)
    × ((e : ℕ) → offset ≤ e → e < d → is_ready_at tasks (behind tasks start e) ≡ false)

scan_ready-Finds :
    (tasks : List Task) (start left offset : ℕ)
    → Finds tasks start left offset (scan_ready tasks start left offset)
unfolding scan_ready
scan_ready-Finds tasks start zero offset = λ d lo hi. absurd (omega arith)
scan_ready-Finds tasks start (suc left) offset =
    elim (Bool-cases (is_ready_at tasks (behind tasks start offset))) [
      | inl h ↦ rw h (offset, omega arith, omega arith, refl, h, λ e lo hi. absurd (omega arith))
      | inr h ↦ rw h (
          extend (scan_ready tasks start left (offset + 1)) h
            (scan_ready-Finds tasks start left (offset + 1)))
    ]
  where
    step :
        (d : ℕ)
        → is_ready_at tasks (behind tasks start offset) ≡ false
        → offset ≤ d
        → (suc offset ≤ d → is_ready_at tasks (behind tasks start d) ≡ false)
        → is_ready_at tasks (behind tasks start d) ≡ false
    step d h lo later = elim (Bool-cases (offset == d)) [
      | inl e ↦ let same : offset ≡ d = ground arith in rw (← same) h
      | inr e ↦ later (ground arith)
    ]

    extend :
        (o : Option ℕ)
        → is_ready_at tasks (behind tasks start offset) ≡ false
        → Finds tasks start left (offset + 1) o
        → Finds tasks start (suc left) offset o
    extend none h f = λ d lo hi. step d h lo (λ more. f d (omega arith) (omega arith))
    extend (some i) h (d, lo, hi, at, yes_ready, before) = (
      d,
      omega arith,
      omega arith,
      at,
      yes_ready,
      λ e elo ehi. step e h elo (λ more. before e (omega arith) ehi),
    )

-- Every index is met once on the way round.
behind_reaches :
    (tasks : List Task) (start index : ℕ)
    → index < length tasks
    → start < length tasks
    → (d : ℕ) × (1 ≤ d) × (d ≤ length tasks) × (behind tasks start d ≡ index)
behind_reaches tasks start index hi hs = elim (Bool-cases (ltb start index)) [
  | inl h ↦ (
    index - start,
    ground arith,
    ground arith,
    rw (let e : start + (index - start) ≡ index = ground arith in e) (mod-eq_of_lt hi),
  )
  | inr h ↦ (index + length tasks - start, ground arith, ground arith, around (ground arith))
]
  where
    around : start ≤ length tasks → (start + (index + length tasks - start)) % length tasks ≡ index
    around h =
        rw
          (let e : start + (index + length tasks - start) ≡ index + length tasks = omega arith in e)
          (grind arith)

-- Round robin: the choice is a ready task such that no task between the start of the search and it
-- is ready, going round; where there is no choice, no task is ready.
pub next_ready_after-Finds :
    (tasks : List Task) (start : ℕ)
    → Finds tasks start (length tasks) 1 (next_ready_after tasks start)
unfolding next_ready_after
next_ready_after-Finds [] start = λ d lo hi. absurd (omega arith)
next_ready_after-Finds (t ∷ tasks) start = scan_ready-Finds (t ∷ tasks) start (suc (length tasks)) 1

-- Where the search starts at a task and chooses none, no task at all is ready.
pub next_ready_after-none :
    (tasks : List Task) (start index : ℕ)
    → start < length tasks
    → next_ready_after tasks start ≡ none
    → is_ready_at tasks index ≡ false
next_ready_after-none tasks start index hs h = elim (Bool-cases (ltb index (length tasks))) [
  | inl lt ↦
      let (d, lo, hi, e) = behind_reaches tasks start index (ltb→lt _ _ lt) hs in
      rw (← e) (
        (subst (Finds tasks start (length tasks) 1) h (next_ready_after-Finds tasks start)) d lo
          (omega arith))
  | inr beyond ↦ elim (Option-cases (get_elem? tasks index)) [
    | inl n ↦ ground (arith, n)
    | inr (t, e) ↦ absurd (omega (arith, get_elem?_lt tasks index e, ltb→le _ _ beyond))
  ]
]

-- A chosen task is ready.
pub next_ready_after-some :
    (tasks : List Task) (start : ℕ) {index : ℕ}
    → next_ready_after tasks start ≡ some index
    → (t : Task) × (get_elem? tasks index ≡ some t) × (t.state ≡ ready)
next_ready_after-some tasks start {index} h =
    let (d, lo, hi, at, found, before) =
      subst (Finds tasks start (length tasks) 1) h (next_ready_after-Finds tasks start) in
    elim (Option-cases (get_elem? tasks index)) [
      | inl n ↦ ground (arith, n, found)
      | inr (t, e) ↦ (t, e, ground (arith, e, found))
    ]
