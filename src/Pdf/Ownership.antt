-- ===== src/Pdf/Ownership.antt =====
-- crates/presslint-pdf/src/lib.rs: whether an indirect object may be changed in place.
use presslint.Common.{
  ℕ, ◌≡◌, ◌≢◌, ◌↔◌, refl, sym, ◌∙◌, ◌⊎◌, inl, inr, Bool, true, false, ◌&&◌, ◌||◌, List, [], ◌∷◌,
  ltb, ◌==◌, if◌then◌else◌, Bool-cases, arith,
}

pub record IndirectRef : Type 0 where
  pub object_number : ℕ
  pub generation : ℕ

pub data IndirectObjectOwnership : Type 0 where
  proven_single_use : IndirectRef → IndirectObjectOwnership
  shared : List IndirectRef → IndirectObjectOwnership
  unproven : IndirectObjectOwnership

pub data IndirectObjectEditDisposition : Type 0 where
  in_place_mutation private_copy : IndirectObjectEditDisposition

pub record IndirectObjectEditDecision : Type 0 where
  pub target : IndirectRef
  pub ownership : IndirectObjectOwnership
  pub disposition : IndirectObjectEditDisposition

-- The derived order: by object number, then by generation.
unfoldable pub ref_ltb : IndirectRef → IndirectRef → Bool
ref_ltb a b =
    ltb a.object_number b.object_number
    || (a.object_number == b.object_number && ltb a.generation b.generation)

-- `BTreeSet::insert`, on the ascending list of the members.
unfoldable pub insert_ref : IndirectRef → List IndirectRef → List IndirectRef
insert_ref x [] = x ∷ []
insert_ref x (y ∷ ys) =
    if ref_ltb x y then x ∷ y ∷ ys else if ref_ltb y x then y ∷ insert_ref x ys else y ∷ ys

-- `.collect::<BTreeSet<_>>()`
unfoldable pub collect_refs : List IndirectRef → List IndirectRef
unfolding insert_ref
collect_refs [] = []
collect_refs (x ∷ xs) = insert_ref x (collect_refs xs)

-- The matches on the slice and on the ownership.
unfoldable pub ownership_of : List IndirectRef → IndirectObjectOwnership
ownership_of [] = unproven
ownership_of (owner ∷ []) = proven_single_use owner
ownership_of (a ∷ b ∷ rest) = shared (a ∷ b ∷ rest)

unfoldable pub disposition_of : IndirectObjectOwnership → IndirectObjectEditDisposition
disposition_of (proven_single_use owner) = in_place_mutation
disposition_of (shared consumers) = private_copy
disposition_of unproven = private_copy

unfoldable pub decide_indirect_object_edit :
    IndirectRef → List IndirectRef → IndirectObjectEditDecision
unfolding collect_refs ownership_of disposition_of
decide_indirect_object_edit target proven_consumers =
    let ownership = ownership_of (collect_refs proven_consumers) in
    record { target = target; ownership = ownership; disposition = disposition_of ownership }

abbrev pub Among : IndirectRef → List IndirectRef → Type 0
Among x [] = ⊥
Among x (y ∷ ys) = (x ≡ y) ⊎ Among x ys

abbrev pub Below : IndirectRef → List IndirectRef → Type 0
Below x [] = Unit
Below x (y ∷ ys) = (ref_ltb x y ≡ true) × Below x ys

abbrev pub Ascending : List IndirectRef → Type 0
Ascending [] = Unit
Ascending (x ∷ xs) = Below x xs × Ascending xs

abbrev pub SameMembers : List IndirectRef → List IndirectRef → Type 0
SameMembers xs ys = (x : IndirectRef) → Among x xs ↔ Among x ys

-- What the consumers show: none, one and the same, or at least two that differ.
abbrev pub OwnershipOf : List IndirectRef → IndirectObjectOwnership → Type 0
OwnershipOf consumers unproven = consumers ≡ []
OwnershipOf consumers (proven_single_use owner) =
    (x : IndirectRef) → Among x consumers ↔ (x ≡ owner)
OwnershipOf consumers (shared owners) =
    Ascending owners
    × SameMembers consumers owners
    × ((a : IndirectRef) × (b : IndirectRef) × Among a consumers × Among b consumers × (a ≢ b))

ref_ltb_trans : (a b c : IndirectRef) → ref_ltb a b ≡ true → ref_ltb b c ≡ true → ref_ltb a c ≡ true
unfolding ref_ltb
ref_ltb_trans a b c h k = ground arith

ref_ltb_irrefl : (a : IndirectRef) → ref_ltb a a ≡ false
unfolding ref_ltb
ref_ltb_irrefl a = ground arith

ref_ltb_total : (a b : IndirectRef) → ref_ltb a b ≡ false → ref_ltb b a ≡ false → a ≡ b
unfolding ref_ltb
ref_ltb_total a b h k =
    let same_number : a.object_number ≡ b.object_number = ground arith in
    let same_generation : a.generation ≡ b.generation = ground arith in
    rw (same_number, same_generation) refl

lowered : (x y : IndirectRef) (ys : List IndirectRef) → ref_ltb x y ≡ true → Below y ys → Below x ys
lowered x y [] h b = tt
lowered x y (z ∷ zs) h (k, b) = (ref_ltb_trans x y z h k, lowered x y zs h b)

Below-insert_ref :
    (z x : IndirectRef) (ys : List IndirectRef)
    → ref_ltb z x ≡ true
    → Below z ys
    → Below z (insert_ref x ys)
unfolding insert_ref
Below-insert_ref z x [] h b = (h, tt)
Below-insert_ref z x (y ∷ ys) h (k, b) = elim (Bool-cases (ref_ltb x y)) [
  | inl e ↦ rw e (h, (k, b))
  | inr e ↦ elim (Bool-cases (ref_ltb y x)) [
    | inl e' ↦ rw (e, e') (k, Below-insert_ref z x ys h b)
    | inr e' ↦ rw (e, e') (k, b)
  ]
]

insert_ref-Ascending :
    (x : IndirectRef) (ys : List IndirectRef) → Ascending ys → Ascending (insert_ref x ys)
unfolding insert_ref
insert_ref-Ascending x [] h = (tt, tt)
insert_ref-Ascending x (y ∷ ys) (b, h) = elim (Bool-cases (ref_ltb x y)) [
  | inl e ↦ rw e ((e, lowered x y ys e b), (b, h))
  | inr e ↦ elim (Bool-cases (ref_ltb y x)) [
    | inl e' ↦ rw (e, e') (Below-insert_ref y x ys e' b, insert_ref-Ascending x ys h)
    | inr e' ↦ rw (e, e') (b, h)
  ]
]

Among-insert_ref :
    (z x : IndirectRef) (ys : List IndirectRef) → Among z (x ∷ ys) ↔ Among z (insert_ref x ys)
unfolding insert_ref
Among-insert_ref z x [] = (λ h. h, λ h. h)
Among-insert_ref z x (y ∷ ys) =
    let (on, back) = Among-insert_ref z x ys in
    elim (Bool-cases (ref_ltb x y)) [
      | inl e ↦ rw e (λ h. h, λ h. h)
      | inr e ↦ elim (Bool-cases (ref_ltb y x)) [
        | inl e' ↦
            rw (e, e')
              (
                elim [
                  | inl p ↦ inr (on (inl p))
                  | inr (inl p) ↦ inl p
                  | inr (inr m) ↦ inr (on (inr m))
                ],
                elim [
                  | inl p ↦ inr (inl p)
                  | inr m ↦ elim (back m) [ inl p ↦ inl p | inr k ↦ inr (inr k) ]
                ],
              )
        | inr e' ↦
            let same = ref_ltb_total x y e e' in
            rw (e, e') (elim [ inl p ↦ inl (p ∙ same) | inr m ↦ m ], λ m. inr m)
      ]
    ]

collect_refs-Ascending : (xs : List IndirectRef) → Ascending (collect_refs xs)
unfolding collect_refs
collect_refs-Ascending [] = tt
collect_refs-Ascending (x ∷ xs) =
    insert_ref-Ascending x (collect_refs xs) (collect_refs-Ascending xs)

collect_refs-SameMembers : (xs : List IndirectRef) → SameMembers xs (collect_refs xs)
unfolding collect_refs
collect_refs-SameMembers [] z = (λ h. h, λ h. h)
collect_refs-SameMembers (x ∷ xs) z =
    let (on, back) = collect_refs-SameMembers xs z in
    let (put, take_out) = Among-insert_ref z x (collect_refs xs) in
    (
      elim [ inl p ↦ put (inl p) | inr m ↦ put (inr (on m)) ],
      λ m. elim (take_out m) [ inl p ↦ inl p | inr k ↦ inr (back k) ],
    )

no_members : (xs : List IndirectRef) → SameMembers xs [] → xs ≡ []
no_members [] h = refl
no_members (x ∷ xs) h = absurd ((h x).0 (inl refl))

ownership_of-OwnershipOf :
    (xs owners : List IndirectRef)
    → SameMembers xs owners
    → Ascending owners
    → OwnershipOf xs (ownership_of owners)
unfolding ownership_of
ownership_of-OwnershipOf xs [] same h = no_members xs same
ownership_of-OwnershipOf xs (owner ∷ []) same h = λ x. (
  λ m. elim ((same x).0 m) [ inl p ↦ p | inr none_left ↦ absurd none_left ],
  λ p. (same x).1 (inl p),
)
ownership_of-OwnershipOf xs (a ∷ b ∷ rest) same ((lt, below), h) = (
  ((lt, below), h),
  same,
  (
    a,
    b,
    (same a).1 (inl refl),
    (same b).1 (inr (inl refl)),
    λ p. let not_less = ref_ltb_irrefl b in let less = rw p at lt in cc,
  ),
)

in_place_iff :
    (consumers : List IndirectRef) (o : IndirectObjectOwnership)
    → OwnershipOf consumers o
    → (disposition_of o ≡ in_place_mutation)
      ↔ ((owner : IndirectRef) × ((x : IndirectRef) → Among x consumers ↔ (x ≡ owner)))
unfolding disposition_of
in_place_iff consumers (proven_single_use owner) h = (λ e. (owner, h), λ k. refl)
in_place_iff consumers unproven h =
    (λ e. cc, λ (owner, same). absurd (rw h at ((same owner).1 refl)))
in_place_iff consumers (shared owners) (asc, members, (a, b, m, k, differ)) =
    (λ e. cc, λ (owner, same). absurd (differ ((same a).0 m ∙ sym ((same b).0 k))))

-- The decision is about the target; its ownership is what the consumers show, repetitions aside: unproven
-- where there are none, a single use where all are one and the same, and otherwise the distinct
-- consumers in ascending order, of which there are at least two; and a change in place is allowed
-- exactly where the use is a single one.
pub decide_indirect_object_edit_decides :
    (target : IndirectRef) (consumers : List IndirectRef)
    → let d = decide_indirect_object_edit target consumers in
      (d.target ≡ target)
      × OwnershipOf consumers d.ownership
      × ((d.disposition ≡ in_place_mutation)
          ↔ ((owner : IndirectRef) × ((x : IndirectRef) → Among x consumers ↔ (x ≡ owner))))
unfolding decide_indirect_object_edit
decide_indirect_object_edit_decides target consumers =
    let owns =
      ownership_of-OwnershipOf consumers (collect_refs consumers)
        (collect_refs-SameMembers consumers) (collect_refs-Ascending consumers) in
    (refl, owns, in_place_iff consumers (ownership_of (collect_refs consumers)) owns)
