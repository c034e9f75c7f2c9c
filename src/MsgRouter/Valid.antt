-- ===== src/MsgRouter/Valid.antt =====
-- msgRouter.c: when the lists of the router fit together: every consumer of a message ID is a client on
-- the list of clients, no list holds a client twice, and no ID that `getMIIB` can find has two blocks.
use mathlib.Core.Path.{subst}
use radlib.Base.{
  ℕ, ◌≡◌, refl, ◌∙◌, ap, append-nil, ==_self, if◌then◌else◌, Bool, true, false, ◌==◌, none, some,
  List, [], ◌∷◌, ◌++◌, arith, Bool-cases, inl, inr, eq_of_==,
}
use radlib.Base.Lists.{
  has, Distinct, erase, All, All-map, All-snoc, has-erase, Distinct-erase, Distinct-snoc,
  has-append,
}
use radlib.SysDefs.{sign_extended, sign_extended-sign_extended}
use radlib.RadList.{Ptr, null}
use radlib.MsgRouter.{
  Miib, Work, get_miib, set_consumers, remove_miib, is_empty, remove_client, add_client,
}

abbrev pub Known : List Ptr → List Ptr → Type 0
Known ps = All (λ p. has p ps ≡ true)

abbrev pub MiibOk : List Ptr → Miib → Type 0
MiibOk ps m = Known ps m.consumers × Distinct m.consumers

-- The message IDs that `getMIIB` can find: those that an `int` can hold.
abbrev pub ids_of : Miib → List ℕ → List ℕ
ids_of m is = if m.msg_id == sign_extended m.msg_id then m.msg_id ∷ is else is

abbrev pub ids : List Miib → List ℕ
ids [] = []
ids (m ∷ ms) = ids_of m (ids ms)

pub record IsSound (ps : List Ptr) (ms : List Miib) : Type 0 where
  pub distinct : Distinct ps
  pub non_null : has null ps ≡ false
  pub blocks : All (MiibOk ps) ms
  pub ids_distinct : Distinct (ids ms)

abbrev pub IsValid : Work → Type 0
IsValid w = IsSound w.pib_list w.miib_list

-- The block that `getMIIB` finds.
pub get_miib-MiibOk :
    (ps : List Ptr) (id : ℕ) (ms : List Miib) (cs : List Ptr)
    → All (MiibOk ps) ms
    → get_miib id ms ≡ some cs
    → Known ps cs × Distinct cs
unfolding get_miib
get_miib-MiibOk ps id [] cs h e = cc
get_miib-MiibOk ps id (m ∷ ms) cs h e = elim (Bool-cases (m.msg_id == sign_extended id)) [
  | inl y ↦
      let q : m.consumers ≡ cs = ground arith in (subst (Known ps) q h.0.0, subst Distinct q h.0.1)
  | inr n ↦ get_miib-MiibOk ps id ms cs h.1 (rw n at e)
]

pub set_consumers-MiibOk :
    (ps : List Ptr) (id : ℕ) (cs : List Ptr) (ms : List Miib)
    → Known ps cs × Distinct cs
    → All (MiibOk ps) ms
    → All (MiibOk ps) (set_consumers id cs ms)
unfolding set_consumers
set_consumers-MiibOk ps id cs [] new h = tt
set_consumers-MiibOk ps id cs (m ∷ ms) new h = elim (Bool-cases (m.msg_id == sign_extended id)) [
  | inl y ↦ rw y (new, h.1)
  | inr n ↦ rw n (h.0, set_consumers-MiibOk ps id cs ms new h.1)
]

pub ids-set_consumers :
    (id : ℕ) (cs : List Ptr) (ms : List Miib) → ids (set_consumers id cs ms) ≡ ids ms
unfolding set_consumers
ids-set_consumers id cs [] = refl
ids-set_consumers id cs (m ∷ ms) = elim (Bool-cases (m.msg_id == sign_extended id)) [
  | inl y ↦ rw y
  | inr n ↦ rw n (ap (ids_of m) (ids-set_consumers id cs ms))
]

pub remove_miib-MiibOk :
    (ps : List Ptr) (id : ℕ) (ms : List Miib)
    → All (MiibOk ps) ms
    → All (MiibOk ps) (remove_miib id ms)
unfolding remove_miib
remove_miib-MiibOk ps id [] h = tt
remove_miib-MiibOk ps id (m ∷ ms) h = elim (Bool-cases (m.msg_id == sign_extended id)) [
  | inl y ↦ rw y h.1
  | inr n ↦ rw n (h.0, remove_miib-MiibOk ps id ms h.1)
]

-- A block that `getMIIB` finds.
pub ids_of-found :
    (id : ℕ) (m : Miib) (is : List ℕ)
    → (m.msg_id == sign_extended id) ≡ true
    → ids_of m is ≡ sign_extended id ∷ is
ids_of-found id m is y =
    let e = eq_of_== m.msg_id (sign_extended id) y in
    rw (e, sign_extended-sign_extended id, ==_self (sign_extended id)) refl

erase-ids_of :
    (a : ℕ) (m : Miib) (is : List ℕ)
    → (m.msg_id == a) ≡ false
    → erase a (ids_of m is) ≡ ids_of m (erase a is)
erase-ids_of a m is n = elim (Bool-cases (m.msg_id == sign_extended m.msg_id)) [
  | inl y ↦ rw (y, n) refl
  | inr k ↦ rw k refl
]

pub has-ids_of :
    (a : ℕ) (m : Miib) (is : List ℕ)
    → (m.msg_id == a) ≡ false
    → has a is ≡ false
    → has a (ids_of m is) ≡ false
has-ids_of a m is n h = elim (Bool-cases (m.msg_id == sign_extended m.msg_id)) [
  | inl y ↦ rw y (ground (arith, n, h))
  | inr k ↦ rw k h
]

pub has-ids_of_rest :
    (a : ℕ) (m : Miib) (is : List ℕ) → has a (ids_of m is) ≡ false → has a is ≡ false
has-ids_of_rest a m is h = elim (Bool-cases (m.msg_id == sign_extended m.msg_id)) [
  | inl y ↦ ground (arith, h, y)
  | inr k ↦ ground (arith, h, k)
]

pub ids-remove_miib :
    (id : ℕ) (ms : List Miib) → ids (remove_miib id ms) ≡ erase (sign_extended id) (ids ms)
unfolding remove_miib
ids-remove_miib id [] = refl
ids-remove_miib id (m ∷ ms) = elim (Bool-cases (m.msg_id == sign_extended id)) [
  | inl y ↦ rw (remove_miib, y, ids_of-found id m (ids ms) y, ==_self (sign_extended id)) refl
  | inr n ↦
      rw (remove_miib, n, erase-ids_of (sign_extended id) m (ids ms) n)
        (ap (ids_of m) (ids-remove_miib id ms))
]

pub get_miib-none :
    (id : ℕ) (ms : List Miib) → get_miib id ms ≡ none → has (sign_extended id) (ids ms) ≡ false
unfolding get_miib
get_miib-none id [] e = refl
get_miib-none id (m ∷ ms) e = elim (Bool-cases (m.msg_id == sign_extended id)) [
  | inl y ↦ absurd (ground arith)
  | inr n ↦ has-ids_of (sign_extended id) m (ids ms) n (get_miib-none id ms (rw n at e))
]

-- A new block for an ID that `getMIIB` does not find.
pub Distinct-new :
    (m : Miib) (ms : List Miib)
    → has (sign_extended m.msg_id) (ids ms) ≡ false
    → Distinct (ids ms)
    → Distinct (ids (ms ++ m ∷ []))
Distinct-new m ms h d = rw (ids-snoc ms) (elim (Bool-cases (m.msg_id == sign_extended m.msg_id)) [
  | inl y ↦
      rw y (Distinct-snoc m.msg_id (ids ms) d (rw (eq_of_== m.msg_id (sign_extended m.msg_id) y) h))
  | inr n ↦ rw (n, append-nil (ids ms)) d
])
  where
    ids_of-append : (n : Miib) (is js : List ℕ) → ids_of n (is ++ js) ≡ ids_of n is ++ js
    ids_of-append n is js = elim (Bool-cases (n.msg_id == sign_extended n.msg_id)) [
      | inl y ↦ rw y refl
      | inr k ↦ rw k refl
    ]

    ids-snoc : (xs : List Miib) → ids (xs ++ m ∷ []) ≡ ids xs ++ ids_of m []
    ids-snoc [] = refl
    ids-snoc (n ∷ xs) = ap (ids_of n) (ids-snoc xs) ∙ ids_of-append n (ids xs) (ids_of m [])

-- More clients.
pub Known-snoc : (p : Ptr) (ps cs : List Ptr) → Known ps cs → Known (ps ++ p ∷ []) cs
Known-snoc p ps cs = All-map _ _ cs (λ a h. ground (arith, has-append a ps (p ∷ [])))

-- A new client.
pub IsSound-snoc :
    (p : Ptr) (ps : List Ptr) (ms : List Miib)
    → has p ps ≡ false
    → (p == null) ≡ false
    → IsSound ps ms
    → IsSound (ps ++ p ∷ []) ms
IsSound-snoc p ps ms out n v = record {
  distinct = Distinct-snoc p ps v.distinct out;
  non_null = ground (arith, has-append null ps (p ∷ []), v.non_null);
  blocks = All-map _ _ ms (λ m h. (Known-snoc p ps m.consumers h.0, h.1)) v.blocks;
  ids_distinct = v.ids_distinct;
}

-- A client leaves.
module _ (p : Ptr) (ps : List Ptr) (d : Distinct ps) where
  pub Known-without : (cs : List Ptr) → has p cs ≡ false → Known ps cs → Known (erase p ps) cs
  Known-without [] h k = tt
  Known-without (c ∷ cs) h k =
      (ground (arith, has-erase c p ps d), Known-without cs (ground arith) k.1)

  Known-erase : (cs : List Ptr) → Known ps cs → Distinct cs → Known (erase p ps) (erase p cs)
  Known-erase [] k e = tt
  Known-erase (c ∷ cs) k e = elim (Bool-cases (c == p)) [
    | inl y ↦ rw y (Known-without cs (subst (λ q. has q cs ≡ false) (eq_of_== c p y) e.0) k.1)
    | inr n ↦ rw n (ground (arith, has-erase c p ps d), Known-erase cs k.1 e.1)
  ]

  pub remove_client-MiibOk :
      (ms : List Miib) → All (MiibOk ps) ms → All (MiibOk (erase p ps)) (remove_client p ms)
  unfolding remove_client
  remove_client-MiibOk [] h = tt
  remove_client-MiibOk (m ∷ ms) h =
      let ih = remove_client-MiibOk ms h.1 in
      elim (Bool-cases (is_empty (erase p m.consumers))) [
        | inl y ↦ rw y ih
        | inr n ↦
            rw n ((Known-erase m.consumers h.0.0 h.0.1, Distinct-erase p m.consumers h.0.1), ih)
      ]

not-has-remove_client :
    (p : Ptr) (id : ℕ) (ms : List Miib)
    → has id (ids ms) ≡ false
    → has id (ids (remove_client p ms)) ≡ false
unfolding remove_client
not-has-remove_client p id [] h = refl
not-has-remove_client p id (m ∷ ms) h =
    let ih = not-has-remove_client p id ms (has-ids_of_rest id m (ids ms) h) in
    elim (Bool-cases (is_empty (erase p m.consumers))) [
      | inl y ↦ rw y ih
      | inr n ↦ rw n (elim (Bool-cases (m.msg_id == sign_extended m.msg_id)) [
        | inl y ↦ rw y (ground (arith, h, y, ih))
        | inr k ↦ rw k ih
      ])
    ]

Distinct-ids_of :
    (m : Miib) (is js : List ℕ)
    → (has m.msg_id is ≡ false → has m.msg_id js ≡ false)
    → Distinct js
    → Distinct (ids_of m is)
    → Distinct (ids_of m js)
Distinct-ids_of m is js f d h = elim (Bool-cases (m.msg_id == sign_extended m.msg_id)) [
  | inl y ↦ rw y (f (rw y at h).0, d)
  | inr k ↦ rw k d
]

Distinct-rest : (m : Miib) (is : List ℕ) → Distinct (ids_of m is) → Distinct is
Distinct-rest m is h = elim (Bool-cases (m.msg_id == sign_extended m.msg_id)) [
  | inl y ↦ (rw y at h).1
  | inr k ↦ rw k at h
]

pub Distinct-remove_client :
    (p : Ptr) (ms : List Miib) → Distinct (ids ms) → Distinct (ids (remove_client p ms))
unfolding remove_client
Distinct-remove_client p [] d = tt
Distinct-remove_client p (m ∷ ms) d =
    let ih = Distinct-remove_client p ms (Distinct-rest m (ids ms) d) in
    elim (Bool-cases (is_empty (erase p m.consumers))) [
      | inl y ↦ rw y ih
      | inr n ↦ rw n (
          Distinct-ids_of m (ids ms) (ids (remove_client p ms))
            (not-has-remove_client p m.msg_id ms) ih d)
    ]

pub add_client-MiibOk :
    (cib_ok : Bool) (ps cs : List Ptr) (p : Ptr)
    → has p ps ≡ true
    → Known ps cs × Distinct cs
    → Known ps (add_client cib_ok cs p) × Distinct (add_client cib_ok cs p)
unfolding add_client
add_client-MiibOk cib_ok ps cs p h k = elim (Bool-cases (has p cs)) [
  | inl y ↦ rw y k
  | inr n ↦ rw n (elim (Bool-cases cib_ok) [
    | inl e ↦ rw e (All-snoc _ p cs k.0 h, Distinct-snoc p cs k.1 n)
    | inr f ↦ rw f k
  ])
]
