-- ===== src/Nwc/Copies.antt =====
-- The ring of admissions remembers as long as it has to.
use brollyzapper.Base.{
  ℕ, zero, suc, ◌+◌, ◌-◌, ◌%◌, ◌≤◌, ◌<◌, ◌==◌, ◌≡◌, refl, ap, subst, ◌∙◌, Bool, true, false, some,
  List, [], ◌∷◌, String, str_eq, eq_refl, arith, Option-cases, inl, inr, All, All-map,
}
use brollyzapper.Store.Rows.{Time}
use brollyzapper.Nwc.Limit.{
  RequestLimit, Admission, Admitted, sibling, charged, refused, full, refill, calmed, is_sibling,
  is_copy, any_below, admitted_memory, sibling_delivery_window, admit_refilled, admit, fresh,
}
use brollyzapper.Nwc.Rate.{
  Arrival, is_charged, admit_all, charges, admit-tokens, admit-last, charges_le, admit_all-le-full,
  refill-le-full, since,
}

any_below-at : (n : ℕ) (p : ℕ → Bool) (i : ℕ) → i < n → p i ≡ true → any_below n p ≡ true
any_below-at zero p i h e = absurd (omega arith)
any_below-at (suc n) p i h e = ground (arith, any_below-at n p i, ap p)

refill-admitted :
    (now : Time) (l : RequestLimit) (i : ℕ) → (calmed (refill now l)).admitted i ≡ l.admitted i
refill-admitted now l i = elim (Option-cases l.last) [
  | inl e ↦ rw e (ground arith)
  | inr (at, e) ↦ rw e (ground arith)
]

refill-next : (now : Time) (l : RequestLimit) → (calmed (refill now l)).next ≡ l.next
refill-next now l = elim (Option-cases l.last) [
  | inl e ↦ rw e (ground arith)
  | inr (at, e) ↦ rw e (ground arith)
]

admit_refilled-admitted :
    (id : String) (now : Time) (l : RequestLimit) (i : ℕ)
    → (l.next == i) ≡ false
    → (admit_refilled id now l).1.admitted i ≡ l.admitted i
admit_refilled-admitted id now l i h = ground arith

admit_refilled-next :
    (id : String) (now : Time) (l : RequestLimit)
    → l.next < admitted_memory
    → (admit_refilled id now l).1.next
      ≡ (l.next + is_charged (admit_refilled id now l).0) % admitted_memory
admit_refilled-next id now l h = ground arith

-- An entry, and how many admissions ago it was written.
abbrev IsAgo : RequestLimit → ℕ → Admission → ℕ → Type 0
IsAgo l i a n =
    (l.admitted i ≡ some a) × (l.next ≡ (i + 1 + n) % admitted_memory) × (i < admitted_memory)

admit-admitted :
    (id : String) (now : Time) (l : RequestLimit) (i : ℕ)
    → (l.next == i) ≡ false
    → (admit id now l).1.admitted i ≡ l.admitted i
unfolding admit
admit-admitted id now l i h =
    admit_refilled-admitted id now (calmed (refill now l)) i (rw (refill-next now l) h)
    ∙ refill-admitted now l i

admit-next :
    (id : String) (now : Time) (l : RequestLimit)
    → l.next < admitted_memory
    → (admit id now l).1.next ≡ (l.next + is_charged (admit id now l).0) % admitted_memory
unfolding admit
admit-next id now l h =
    admit_refilled-next id now (calmed (refill now l)) (rw (refill-next now l) h)
    ∙ ap (λ n. (n + is_charged (admit_refilled id now (calmed (refill now l))).0) % admitted_memory)
        (refill-next now l)

is_charged-le : (a : Admitted) → is_charged a ≤ 1
is_charged-le sibling = omega arith
is_charged-le charged = omega arith
is_charged-le (refused b) = omega arith

admit-IsAgo :
    (id : String) (now : Time) (l : RequestLimit) (i : ℕ) (a : Admission) (n : ℕ)
    → n < admitted_memory - 1
    → IsAgo l i a n
    → IsAgo (admit id now l).1 i a (n + is_charged (admit id now l).0)
admit-IsAgo id now l i a n h (e, m, b) = (
  admit-admitted id now l i (elsewhere l m) ∙ e,
  (let step = admit-next id now l (omega arith) in
      let few = is_charged-le (admit id now l).0 in omega arith),
  b,
)
  where
    elsewhere : (l : RequestLimit) → l.next ≡ (i + 1 + n) % admitted_memory → (l.next == i) ≡ false
    elsewhere l' m' = ground arith

admit_all-admitted :
    (rs : List Arrival) (l : RequestLimit) (i : ℕ) (a : Admission) (n : ℕ)
    → n + charges rs l < admitted_memory - 1
    → IsAgo l i a n
    → (admit_all rs l).admitted i ≡ some a
unfolding admit_all charges
admit_all-admitted [] l i a n h s = s.0
admit_all-admitted ((id, now) ∷ rs) l i a n h s =
    admit_all-admitted rs (admit id now l).1 i a (n + is_charged (admit id now l).0) (omega arith)
      (admit-IsAgo id now l i a n (omega arith) s)

admit_refilled-writes :
    (id : String) (now : Time) (l : RequestLimit)
    → (admit_refilled id now l).0 ≡ charged
    → l.next < admitted_memory
    → IsAgo (admit_refilled id now l).1 l.next (record { id = id; at = now }) 0
admit_refilled-writes id now l h b = (ground arith, ground arith, b)

charged-writes :
    (id : String) (now : Time) (l : RequestLimit)
    → l.next < admitted_memory
    → (admit id now l).0 ≡ charged
    → IsAgo (admit id now l).1 l.next (record { id = id; at = now }) 0
unfolding admit
charged-writes id now l b h =
    subst
      (λ i.
        ((admit_refilled id now (calmed (refill now l))).1.admitted i
          ≡ some (record { id = id; at = now }))
        × ((admit_refilled id now (calmed (refill now l))).1.next ≡ (i + 1 + 0) % admitted_memory)
        × (i < admitted_memory))
      (refill-next now l)
      (admit_refilled-writes id now (calmed (refill now l)) h (rw (refill-next now l) b))

-- The request that is charged leaves less than a full bucket, so that few more are within the window.
few_within :
    (rs : List Arrival) (id : String) (at : Time) (l : RequestLimit)
    → l.tokens ≤ full
    → (admit id at l).0 ≡ charged
    → All (λ (r : Arrival). r.1 < at + sibling_delivery_window) rs
    → 0 + charges rs (admit id at l).1 < admitted_memory - 1
few_within rs id at l f h w =
    let (t, e, s) = since at at l (omega arith) in
    let step = admit-tokens id at l in
    let paid : is_charged (admit id at l).0 ≡ 1 = rw h refl in
    let most = refill-le-full at l f in
    let rest =
      charges_le (at + sibling_delivery_window - 1) rs (admit id at l).1 t (admit-last id at l ∙ e)
        (All-map (λ (r : Arrival) (p : r.1 < at + sibling_delivery_window). omega arith) rs w) in
    omega arith

admit_refilled-copy :
    (id : String) (now : Time) (l : RequestLimit) (i : ℕ) (a : Admission)
    → i < admitted_memory
    → l.admitted i ≡ some a
    → is_copy id now (some a) ≡ true
    → (admit_refilled id now l).0 ≡ sibling
unfolding is_sibling
admit_refilled-copy id now l i a b e c =
    rw (any_below-at admitted_memory (λ j. is_copy id now (l.admitted j)) i b (rw e c)) refl

admit_all-next :
    (rs : List Arrival) (l : RequestLimit)
    → l.next < admitted_memory
    → (admit_all rs l).next < admitted_memory
unfolding admit_all
admit_all-next [] l b = b
admit_all-next ((id, now) ∷ rs) l b =
    admit_all-next rs (admit id now l).1 (let step = admit-next id now l b in omega arith)

copy_within :
    (id : String) (at now : Time)
    → str_eq id id ≡ true
    → now < at + sibling_delivery_window
    → is_copy id now (some (record { id = id; at = at })) ≡ true
copy_within id at now s t = ground arith

-- After any earlier requests, on any clock: once a request is charged, then whatever else arrives before its
-- window is over, a further copy of it within the window is let through uncharged: the ring has not lost it.
pub copy_uncharged :
    (earlier rs : List Arrival) (id : String) (at now : Time)
    → (admit id at (admit_all earlier fresh)).0 ≡ charged
    → All (λ (r : Arrival). r.1 < at + sibling_delivery_window) rs
    → now < at + sibling_delivery_window
    → (admit id now (admit_all rs (admit id at (admit_all earlier fresh)).1)).0 ≡ sibling
copy_uncharged earlier rs id at now h w n =
    copy_of (admit_all rs (admit id at l).1) l.next bounded (
      admit_all-admitted rs (admit id at l).1 l.next (record { id = id; at = at }) 0
        (few_within rs id at l (admit_all-le-full earlier fresh (omega arith)) h w)
        (charged-writes id at l bounded h))
  where
    l : RequestLimit
    l = admit_all earlier fresh

    bounded : l.next < admitted_memory
    bounded = admit_all-next earlier fresh (omega arith)

    copy_of :
        (m : RequestLimit) (i : ℕ)
        → i < admitted_memory
        → m.admitted i ≡ some (record { id = id; at = at })
        → (admit id now m).0 ≡ sibling
    copy_of m i b e =
        unfold admit in
        admit_refilled-copy id now (calmed (refill now m)) i (record { id = id; at = at }) b
          (refill-admitted now m i ∙ e) (copy_within id at now (eq_refl id) n)
