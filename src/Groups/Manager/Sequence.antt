-- ===== src/Groups/Manager/Sequence.antt =====
-- The sequence numbers of a group only grow.
use i2pchat.Prelude.{
  ℕ, ◌+◌, ◌-◌, ◌≤◌, ◌<◌, ◌≡◌, ap, ◌∙◌, max, true, List, [], ◌∷◌, arith, if◌then◌else◌, is_empty,
  get_or, Bool-cases, inl, inr, if_rule,
}
use i2pchat.Text.{Str, str_eq, str_eq_iff}
use i2pchat.Text.Strip.{strip}
use i2pchat.Dict.{lookup, put, lookup-put}
use i2pchat.Groups.Manager.{Sequences, prime_group_sequence, next_group_seq}

-- The last number of a group; 0 before the first
abbrev pub last_seq : Str → Sequences → ℕ
last_seq g seqs = get_or 0 (lookup g seqs)

last-put :
    (g k : Str) (n : ℕ) (seqs : Sequences)
    → last_seq g (put k n seqs) ≡ (if str_eq k g then n else last_seq g seqs)
last-put g k n seqs =
    ap (get_or 0) (lookup-put k g n seqs)
    ∙ if_rule (λ r. get_or 0 r ≡ (if str_eq k g then n else last_seq g seqs)) (str_eq k g) _ _
        (λ e. rw e) (λ e. rw e)

-- What the manager does with its numbers: it is told of a stored group, or it sends.
pub data SeqCall : Type 0 where
  prime : Str → ℕ → SeqCall
  send : Str → SeqCall

-- The numbers that a run gives out to one group
unfoldable pub issued : Str → List SeqCall → Sequences → List ℕ
issued g [] seqs = []
issued g (prime k n ∷ calls) seqs = issued g calls (prime_group_sequence k n seqs)
issued g (send k ∷ calls) seqs =
    let (n, seqs') = next_group_seq k seqs in
    let rest = issued g calls seqs' in if str_eq k g then n ∷ rest else rest

-- Each number is over the bound before it.
abbrev pub Ascending : ℕ → List ℕ → Type 0
Ascending bound [] = Unit
Ascending bound (n ∷ ns) = (bound < n) × Ascending n ns

Ascending-mono : (a b : ℕ) (ns : List ℕ) → a ≤ b → Ascending b ns → Ascending a ns
Ascending-mono a b [] le h = tt
Ascending-mono a b (n ∷ ns) le h = (omega arith, h.1)

prime-last :
    (g k : Str) (n : ℕ) (seqs : Sequences)
    → last_seq g seqs ≤ last_seq g (prime_group_sequence k n seqs)
unfolding prime_group_sequence
prime-last g k n seqs =
    let key = strip k in
    let top = max (last_seq key seqs) (n - 1) in
    if_rule (λ r. last_seq g seqs ≤ last_seq g r) (is_empty key) seqs _ (λ _. omega arith)
      λ _. elim (Bool-cases (str_eq key g)) [
        | inl e ↦
            let here : last_seq key seqs ≡ last_seq g seqs =
              ap (λ x. last_seq x seqs) ((str_eq_iff key g).0 e) in
            let now : last_seq g (put key top seqs) ≡ top = last-put g key top seqs ∙ rw e in
            omega arith
        | inr e ↦
            let now : last_seq g (put key top seqs) ≡ last_seq g seqs =
              last-put g key top seqs ∙ rw e in
            omega arith
      ]

next-last :
    (g k : Str) (seqs : Sequences)
    → last_seq g (next_group_seq k seqs).1
      ≡ (if str_eq k g then (next_group_seq k seqs).0 else last_seq g seqs)
unfolding next_group_seq
next-last g k seqs = last-put g k (last_seq k seqs + 1) seqs

next-over :
    (g k : Str) (seqs : Sequences) → str_eq k g ≡ true → last_seq g seqs < (next_group_seq k seqs).0
unfolding next_group_seq
next-over g k seqs e =
    let same : last_seq k seqs ≡ last_seq g seqs =
      ap (λ x. last_seq x seqs) ((str_eq_iff k g).0 e) in
    omega arith

-- Whatever is primed and sent, the numbers that a group gets ascend strictly, from over its last one.
pub issued-Ascending :
    (g : Str) (calls : List SeqCall) (seqs : Sequences)
    → Ascending (last_seq g seqs) (issued g calls seqs)
unfolding issued
issued-Ascending g [] seqs = tt
issued-Ascending g (prime k n ∷ calls) seqs =
    Ascending-mono _ _ _ (prime-last g k n seqs)
      (issued-Ascending g calls (prime_group_sequence k n seqs))
issued-Ascending g (send k ∷ calls) seqs =
    let (n, seqs') = next_group_seq k seqs in
    let rest = issued-Ascending g calls seqs' in
    elim (Bool-cases (str_eq k g)) [
      | inl e ↦
          let last : last_seq g seqs' ≡ n = next-last g k seqs ∙ rw e in
          rw e (next-over g k seqs e, rw last at rest)
      | inr e ↦
          let last : last_seq g seqs' ≡ last_seq g seqs = next-last g k seqs ∙ rw e in
          rw e (rw last at rest)
    ]
