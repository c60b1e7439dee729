-- ===== src/Outbox/Sequence.antt =====
-- outbox-poller.service.ts: which commands a batch takes, and the order in which they are published.
use hau_cex.Common.{
  ℕ, zero, suc, ◌≤◌, ◌<◌, ◌≡◌, ◌⊎◌, inl, inr, refl, ap, Bool, true, false, not, ◌&&◌, List, [], ◌∷◌,
  ◌++◌, Option, none, some, length, take, filter, All, All-map, Bool-cases, arith,
}
use mathlib.Core.List.{Perm, perm_middle}
use mathlib.Core.List.Perm
use hau_cex.Database.Schema.{OutboxEvent, OutboxStatus}
use hau_cex.Database.Sorting.{
  order_by, order_by-Perm, order_by-IsSorted, order_by-All, IsSorted, all_comparable,
}
use hau_cex.Outbox.{is_due, is_pending, is_past, sequence_first, comes_first, fetch}

sequence_first_trans :
    (i j k : Option ℕ) (a b c : ℕ)
    → sequence_first i a j b ≡ true
    → sequence_first j b k c ≡ true
    → sequence_first i a k c ≡ true
sequence_first_trans none none none a b c h g = ground (arith, h, g)
sequence_first_trans none none (some k) a b c h g = g
sequence_first_trans none (some j) k a b c h g = cc
sequence_first_trans (some i) j none a b c h g = refl
sequence_first_trans (some i) none (some k) a b c h g = cc
sequence_first_trans (some i) (some j) (some k) a b c h g = ground (arith, h, g)

sequence_first-total :
    (i j : Option ℕ) (a b : ℕ) → sequence_first i a j b ≡ false → sequence_first j b i a ≡ true
sequence_first-total none none a b h = ground (arith, h)
sequence_first-total none (some j) a b h = refl
sequence_first-total (some i) none a b h = cc
sequence_first-total (some i) (some j) a b h = ground (arith, h)

comes_first_trans :
    (e f g : OutboxEvent) → comes_first e f ≡ true → comes_first f g ≡ true → comes_first e g ≡ true
comes_first_trans e f g =
    sequence_first_trans e.command_sequence f.command_sequence g.command_sequence e.created_at
      f.created_at g.created_at

comes_first-total : (e f : OutboxEvent) → comes_first e f ≡ false → comes_first f e ≡ true
comes_first-total e f =
    sequence_first-total e.command_sequence f.command_sequence e.created_at f.created_at

take-length : {A : Type 0} (n : ℕ) (xs : List A) → length (take n xs) ≤ n
take-length zero xs = omega arith
take-length (suc n) [] = omega arith
take-length (suc n) (x ∷ xs) = omega (arith, take-length n xs)

-- What `take` leaves.
abbrev pub drop {ℓ} : {A : Type ℓ} → ℕ → List A → List A
drop zero xs = xs
drop (suc n) [] = []
drop (suc n) (x ∷ xs) = drop n xs

take-drop : {A : Type 0} (n : ℕ) (xs : List A) → take n xs ++ drop n xs ≡ xs
take-drop zero xs = refl
take-drop (suc n) [] = refl
take-drop (suc n) (x ∷ xs) = ap (λ ys. x ∷ ys) (take-drop n xs)

-- A row that may be published: it is PENDING, and has no time of its next try or one that is past.
abbrev pub IsDue : ℕ → OutboxEvent → Type 0
IsDue now e =
    (e.status ≡ OutboxStatus.pending)
    × ((e.next_retry_at ≡ none) ⊎ ((t : ℕ) × (e.next_retry_at ≡ some t) × (t ≤ now)))

-- By the sequence number, the rows without one last; then by the time.
abbrev InOrder : Option ℕ → ℕ → Option ℕ → ℕ → Type 0
InOrder none a none b = a ≤ b
InOrder none a (some n) b = ⊥
InOrder (some m) a none b = Unit
InOrder (some m) a (some n) b = (m < n) ⊎ ((m ≡ n) × (a ≤ b))

-- Each row stands before all that follow it.
abbrev pub AreInOrder : List OutboxEvent → Type 0
AreInOrder [] = Unit
AreInOrder (e ∷ es) =
    All (λ f. InOrder e.command_sequence e.created_at f.command_sequence f.created_at) es
    × AreInOrder es

first-InOrder : (i j : Option ℕ) (a b : ℕ) → sequence_first i a j b ≡ true → InOrder i a j b
first-InOrder none none a b h = ground (arith, h)
first-InOrder none (some j) a b h = cc
first-InOrder (some i) none a b h = tt
first-InOrder (some i) (some j) a b h = ground (arith, h)

sorted-AreInOrder : (es : List OutboxEvent) → IsSorted comes_first es → AreInOrder es
sorted-AreInOrder [] h = tt
sorted-AreInOrder (e ∷ es) h = (
  All-map _ _ es
      (λ f. first-InOrder e.command_sequence f.command_sequence e.created_at f.created_at) h.0,
  sorted-AreInOrder es h.1,
)

is_due-IsDue : (now : ℕ) (e : OutboxEvent) → is_due now e ≡ true → IsDue now e
is_due-IsDue now e h = of_columns e.status e.next_retry_at h
  where
    of_columns :
        (s : OutboxStatus) (t : Option ℕ)
        → (is_pending s && is_past now t) ≡ true
        → (s ≡ OutboxStatus.pending) × ((t ≡ none) ⊎ ((u : ℕ) × (t ≡ some u) × (u ≤ now)))
    of_columns OutboxStatus.pending none h = (refl, inl refl)
    of_columns OutboxStatus.pending (some t) h = (refl, inr (t, refl, ground (arith, h)))
    of_columns OutboxStatus.published t h = cc
    of_columns OutboxStatus.failed t h = cc

is_due_of : (now : ℕ) (e : OutboxEvent) → IsDue now e → is_due now e ≡ true
is_due_of now e (s, inl n) = rw (s, n) refl
is_due_of now e (s, inr (t, n, past)) = rw (s, n) (ground (arith, past))

-- The rows that pass a test, and those that do not.
split-Perm {ℓ} :
    {A : Type ℓ} (p : A → Bool) (xs : List A) → Perm (filter p xs ++ filter (λ x. not (p x)) xs) xs
split-Perm p [] = Perm.refl []
split-Perm p (x ∷ xs) = elim (Bool-cases (p x)) [
  | inl b ↦ rw b (Perm.cons x (split-Perm p xs))
  | inr b ↦ rw b (
      Perm.trans (perm_middle (filter p xs) (filter (λ y. not (p y)) xs))
        (Perm.cons x (split-Perm p xs)))
]

filter-All {ℓ} :
    {A : Type ℓ} (P : A → Type 0) (p : A → Bool)
    → ((x : A) → p x ≡ true → P x)
    → (xs : List A) → All P (filter p xs)
filter-All P p h [] = tt
filter-All P p h (x ∷ xs) = elim (Bool-cases (p x)) [
  | inl b ↦ rw b (h x b, filter-All P p h xs)
  | inr b ↦ rw b (filter-All P p h xs)
]

full_or_all {ℓ} : {A : Type ℓ} (n : ℕ) (xs : List A) → (length (take n xs) ≡ n) ⊎ (drop n xs ≡ [])
full_or_all zero xs = inl refl
full_or_all (suc n) [] = inr refl
full_or_all (suc n) (x ∷ xs) = elim (full_or_all n xs) [
  | inl e ↦ inl (omega (arith, e))
  | inr e ↦ inr e
]

-- The rows of the outbox are those that a batch takes, those that it leaves for later and those that
-- are not due: exactly the first two are PENDING with no time of a next try or one that is past.
-- It takes 50, or all that are due when these are fewer. In the order of the sequence numbers of the
-- commands, rows without one last, then of the times of creation, each row that it takes stands
-- before all that follow it and before all that it leaves.
pub fetch_takes_first :
    (now : ℕ) (events : List OutboxEvent)
    → (length (fetch now events) ≤ 50)
      × ((left : List OutboxEvent) × (rest : List OutboxEvent) × Perm
            ((fetch now events ++ left) ++ rest)
            events
          × All (IsDue now) (fetch now events ++ left)
          × All (λ e. ¬ IsDue now e) rest
          × AreInOrder (fetch now events ++ left)
          × ((length (fetch now events) ≡ 50) ⊎ (left ≡ [])))
unfolding fetch
fetch_takes_first now events =
    let due = filter (is_due now) events in
    let rest = filter (λ e. not (is_due now e)) events in
    let sorted = order_by comes_first due in
    (
      take-length 50 sorted,
      (
        drop 50 sorted,
        rest,
        rw (take-drop 50 sorted) (
            Perm.trans (Perm.append_right rest (∣ order_by-Perm comes_first due ∣₁))
              (split-Perm (is_due now) events)),
        rw (take-drop 50 sorted) (
            order_by-All comes_first (IsDue now) due
              (filter-All (IsDue now) (is_due now) (is_due-IsDue now) events)),
        filter-All (λ e. ¬ IsDue now e) (λ e. not (is_due now e))
            (λ e h d. ground (arith, h, is_due_of now e d)) events,
        rw (take-drop 50 sorted) (
            sorted-AreInOrder sorted (
              order_by-IsSorted comes_first comes_first_trans due
                (all_comparable comes_first comes_first-total due))),
        full_or_all 50 sorted,
      ),
    )
