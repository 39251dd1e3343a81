-- ===== src/Log/Publish.antt =====
-- `publishEntries` of mirbft/log/log.go: what it pushes, and where it stops.
use iss_com_multipaxos.Prelude.{
  ℕ, zero, suc, ◌+◌, ◌<◌, ◌≡◌, refl, subst, ap, true, none, some, ◌⊎◌, inl, inr, List, [], ◌∷◌,
  ◌++◌, arith, is_some, length, Map, lookup, insert, lookup-insert, lookup-erase, run_from-le,
  Option-cases, ltb, Bool-cases, false, or_else, contains, contains-append, ==_iff, ◌≤◌, ◌==◌,
}
use iss_com_multipaxos.Log.{Entry, Log, publish_entry, publish_first, publish_loop, publish_entries}

-- The queue is made of the entries of the numbers from `from` on that are below `n`.
abbrev pub IsRunOf : Map Entry → ℕ → ℕ → List Entry → Type 0
IsRunOf m from n [] = from ≡ n
IsRunOf m from n (e ∷ q) = (lookup from m ≡ some e) × IsRunOf m (from + 1) n q

IsRunOf-publish :
    (m : Map Entry) (n : ℕ) (e : Entry)
    → lookup n m ≡ some e
    → (from : ℕ) (q : List Entry) → IsRunOf m from n q
    → IsRunOf m from (n + 1) (q ++ e ∷ [])
IsRunOf-publish m n e h from [] r = (subst (λ k. lookup k m ≡ some e) (omega arith) h, omega arith)
IsRunOf-publish m n e h from (x ∷ q) r = (r.0, IsRunOf-publish m n e h (from + 1) q r.1)

pub IsRunOf-insert :
    (m : Map Entry) (j : ℕ) (v : Entry)
    → is_some (lookup j m) ≡ false
    → (from n : ℕ) (q : List Entry) → IsRunOf m from n q
    → IsRunOf (insert j v m) from n q
IsRunOf-insert m j v h from n [] r = r
IsRunOf-insert m j v h from n (x ∷ q) r = (
  ground (arith, lookup-insert from j v m, ap (λ k. lookup k m), r.0),
  IsRunOf-insert m j v h (from + 1) n q r.1,
)

-- One queue for each start, each with the entries from its start on that are below `n`.
abbrev pub AreInOrder : Map Entry → ℕ → List ℕ → List (List Entry) → Type 0
AreInOrder m n [] [] = Unit
AreInOrder m n [] (q ∷ qs) = ⊥
AreInOrder m n (s ∷ ss) [] = ⊥
AreInOrder m n (s ∷ ss) (q ∷ qs) = IsRunOf m s n q × AreInOrder m n ss qs

AreInOrder-publish :
    (m : Map Entry) (n : ℕ) (e : Entry)
    → lookup n m ≡ some e
    → (ss : List ℕ) (qs : List (List Entry)) → AreInOrder m n ss qs
    → AreInOrder m (n + 1) ss (publish_entry e qs)
unfolding publish_entry
AreInOrder-publish m n e h [] [] a = tt
AreInOrder-publish m n e h [] (q ∷ qs) a = absurd a
AreInOrder-publish m n e h (s ∷ ss) [] a = absurd a
AreInOrder-publish m n e h (s ∷ ss) (q ∷ qs) a =
    (IsRunOf-publish m n e h s q a.0, AreInOrder-publish m n e h ss qs a.1)

pub AreInOrder-insert :
    (m : Map Entry) (j : ℕ) (v : Entry) (n : ℕ)
    → is_some (lookup j m) ≡ false
    → (ss : List ℕ) (qs : List (List Entry)) → AreInOrder m n ss qs
    → AreInOrder (insert j v m) n ss qs
AreInOrder-insert m j v n h [] [] a = tt
AreInOrder-insert m j v n h [] (q ∷ qs) a = absurd a
AreInOrder-insert m j v n h (s ∷ ss) [] a = absurd a
AreInOrder-insert m j v n h (s ∷ ss) (q ∷ qs) a =
    (IsRunOf-insert m j v h s n q a.0, AreInOrder-insert m j v n h ss qs a.1)

-- A subscriber that comes at the first empty position has an empty queue.
pub AreInOrder-subscribe :
    (m : Map Entry) (n : ℕ) (ss : List ℕ) (qs : List (List Entry))
    → AreInOrder m n ss qs
    → AreInOrder m n (ss ++ n ∷ []) (qs ++ [] ∷ [])
AreInOrder-subscribe m n [] [] a = (refl, tt)
AreInOrder-subscribe m n [] (q ∷ qs) a = absurd a
AreInOrder-subscribe m n (s ∷ ss) [] a = absurd a
AreInOrder-subscribe m n (s ∷ ss) (q ∷ qs) a = (a.0, AreInOrder-subscribe m n ss qs a.1)

pub record Inv (l : Log) : Type 0 where
  pub filled : (k : ℕ) → k < l.first_empty_sn → is_some (lookup k l.entries) ≡ true
  pub nobody : (k : ℕ) → k < l.first_empty_sn → lookup k l.entry_subscribers ≡ none

publish_first-Inv :
    (e : Entry) (l : Log)
    → lookup l.first_empty_sn l.entries ≡ some e
    → Inv l
    → Inv (publish_first e l).0
unfolding publish_first
publish_first-Inv e l h v = record {
  filled = λ k a. elim (Bool-cases (ltb k l.first_empty_sn)) [
    | inl b ↦ v.filled k (ground arith)
    | inr b ↦ subst (λ j. is_some (lookup j l.entries) ≡ true) (ground arith) (ap is_some h)
  ];
  nobody = λ k a. ground (arith, lookup-erase k l.first_empty_sn l.entry_subscribers, v.nobody k);
}

publish_loop-Inv : (f : ℕ) (l : Log) → Inv l → Inv (publish_loop f l).0
unfolding publish_loop
publish_loop-Inv zero l v = v
publish_loop-Inv (suc f) l v = elim (Option-cases (lookup l.first_empty_sn l.entries)) [
  | inl e ↦ rw (e, publish_loop) v
  | inr (x, e) ↦
      rw (e, publish_loop) (publish_loop-Inv f (publish_first x l).0 (publish_first-Inv x l e v))
]

pub publish_entries-Inv : (l : Log) → Inv l → Inv (publish_entries l).0
unfolding publish_entries
publish_entries-Inv l v = publish_loop-Inv (length l.entries) l v

publish_loop-AreInOrder :
    (f : ℕ) (l : Log) (ss : List ℕ)
    → AreInOrder l.entries l.first_empty_sn ss l.log_subscribers
    → AreInOrder
        (publish_loop f l).0.entries
        (publish_loop f l).0.first_empty_sn
        ss
        (publish_loop f l).0.log_subscribers
unfolding publish_loop publish_first
publish_loop-AreInOrder zero l ss a = a
publish_loop-AreInOrder (suc f) l ss a = elim (Option-cases (lookup l.first_empty_sn l.entries)) [
  | inl e ↦ rw (e, publish_loop) a
  | inr (x, e) ↦
      rw (e, publish_loop)
        (publish_loop-AreInOrder f (publish_first x l).0 ss
          (AreInOrder-publish l.entries l.first_empty_sn x e ss l.log_subscribers a))
]

pub publish_entries-AreInOrder :
    (l : Log) (ss : List ℕ)
    → AreInOrder l.entries l.first_empty_sn ss l.log_subscribers
    → AreInOrder
        (publish_entries l).0.entries
        (publish_entries l).0.first_empty_sn
        ss
        (publish_entries l).0.log_subscribers
unfolding publish_entries
publish_entries-AreInOrder l ss a = publish_loop-AreInOrder (length l.entries) l ss a

-- A goroutine that waits for a number that the loop passes is among those that it wakes.
publish_loop-woken :
    (f : ℕ) (l : Log) (sn w : ℕ)
    → l.first_empty_sn ≤ sn
    → sn < (publish_loop f l).0.first_empty_sn
    → contains w (or_else (lookup sn l.entry_subscribers) []) ≡ true
    → contains w (publish_loop f l).1 ≡ true
unfolding publish_loop publish_first
publish_loop-woken zero l sn w p q h = absurd (omega arith)
publish_loop-woken (suc f) l sn w p q h = elim (Option-cases (lookup l.first_empty_sn l.entries)) [
  | inl e ↦ absurd (omega (arith, p, rw (e, publish_loop) at q))
  | inr (x, e) ↦
      let l' : Log = (publish_first x l).0 in
      let q' : sn < (publish_loop f l').0.first_empty_sn = rw (e, publish_loop) at q in
      rw (e, publish_loop)
        (rw
          (contains-append w (or_else (lookup l.first_empty_sn l.entry_subscribers) [])
            (publish_loop f l').1)
          (elim (Bool-cases (sn == l.first_empty_sn)) [
            | inl s ↦
                let k : contains w (or_else (lookup l.first_empty_sn l.entry_subscribers) [])
                    ≡ true =
                  subst (λ j. contains w (or_else (lookup j l.entry_subscribers) []) ≡ true)
                    ((==_iff sn l.first_empty_sn).0 s) h in
                rw k refl
            | inr s ↦
                let o : lookup sn l'.entry_subscribers ≡ lookup sn l.entry_subscribers =
                  ground (arith, lookup-erase sn l.first_empty_sn l.entry_subscribers) in
                let k = publish_loop-woken f l' sn w (ground arith) q' (rw o h) in ground (arith, k)
          ]))
]

pub publish_entries-woken :
    (l : Log) (sn w : ℕ)
    → l.first_empty_sn ≤ sn
    → sn < (publish_entries l).0.first_empty_sn
    → contains w (or_else (lookup sn l.entry_subscribers) []) ≡ true
    → contains w (publish_entries l).1 ≡ true
unfolding publish_entries
publish_entries-woken l sn w p q h = publish_loop-woken (length l.entries) l sn w p q h

publish_loop-entries : (f : ℕ) (l : Log) → (publish_loop f l).0.entries ≡ l.entries
unfolding publish_loop publish_first
publish_loop-entries zero l = refl
publish_loop-entries (suc f) l = elim (Option-cases (lookup l.first_empty_sn l.entries)) [
  | inl e ↦ rw (e, publish_loop) refl
  | inr (x, e) ↦ rw (e, publish_loop) (publish_loop-entries f (publish_first x l).0)
]

pub publish_entries_keeps : (l : Log) → (publish_entries l).0.entries ≡ l.entries
unfolding publish_entries
publish_entries_keeps l = publish_loop-entries (length l.entries) l

publish_loop_end :
    (f : ℕ) (l : Log)
    → (lookup (publish_loop f l).0.first_empty_sn l.entries ≡ none)
      ⊎ ((publish_loop f l).0.first_empty_sn ≡ l.first_empty_sn + f)
unfolding publish_loop publish_first
publish_loop_end zero l = inr (omega arith)
publish_loop_end (suc f) l = elim (Option-cases (lookup l.first_empty_sn l.entries)) [
  | inl e ↦ rw (e, publish_loop) (inl e)
  | inr (x, e) ↦
      rw (e, publish_loop)
        (elim (publish_loop_end f (publish_first x l).0) [
          | inl a ↦ inl a
          | inr a ↦ inr (omega (arith, a))
        ])
]

-- The rounds that the model allows are enough: the loop stops at an empty position.
pub publish_entries_stops :
    (l : Log) → Inv l → lookup (publish_entries l).0.first_empty_sn l.entries ≡ none
unfolding publish_entries
publish_entries_stops l v = elim (publish_loop_end (length l.entries) l) [
  | inl e ↦ e
  | inr full ↦ elim (Option-cases (lookup (publish_entries l).0.first_empty_sn l.entries)) [
    | inl e ↦ e
    | inr (x, e) ↦ absurd (
        omega (
          arith,
          run_from-le (length l.entries + 1) l.first_empty_sn l.entries (λ k a b.
              elim (Bool-cases (ltb k (publish_entries l).0.first_empty_sn)) [
                | inl c ↦
                    subst (λ m. is_some (lookup k m) ≡ true) (publish_entries_keeps l)
                      ((publish_entries-Inv l v).filled k (ground arith))
                | inr c ↦
                    subst (λ j. is_some (lookup j l.entries) ≡ true) (ground arith) (ap is_some e)
              ]),
        ))
  ]
]
