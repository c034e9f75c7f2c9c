-- ===== src/MsgRouter/Subscribe.antt =====
-- msgRouter.c: the consumers of a message ID after it is enabled or disabled for a client.
use mathlib.Core.Path.{subst}
use radlib.Base.{
  ℕ, ◌^◌, ◌<◌, ◌≡◌, refl, sym, ap, ◌∙◌, true, false, ◌==◌, Option, none, some, List, [], ◌∷◌, ◌++◌,
  arith, Bool-cases, Option-cases, inl, inr, ==_self,
}
use radlib.Base.Lists.{has, erase, Distinct, has-erase, has-append}
use radlib.SysDefs.{sign_extended}
use radlib.RadList.{Ptr, null}
use radlib.MsgRouter.{
  Miib, Work, Env, get_miib, block_with, get_miib-block_with, set_consumers, remove_miib, is_empty,
  add_client,
}
use radlib.MsgRouter.Send.{Sizes, register_all_remotes}
use radlib.MsgRouter.Handler.{Hdr, Alloc, sender, add_consumer, on_enable, on_disable}
use radlib.MsgRouter.Valid.{
  IsValid, ids, get_miib-MiibOk, ids_of-found, has-ids_of_rest, ids-remove_miib, ids-set_consumers,
}
use radlib.MsgRouter.Calls.{register_all_remotes-OnlyCalls}

-- The clients that consume a message ID: those of the first block with it.
abbrev pub consumers_of : ℕ → List Miib → List Ptr
consumers_of id ms = elim (block_with id ms) [ none ↦ [] | some ps ↦ ps ]

not_consumes-none :
    (p : Ptr) (id : ℕ) (ms : List Miib)
    → block_with id ms ≡ none
    → has p (consumers_of id ms) ≡ false
not_consumes-none p id ms h =
    ap (λ (o : Option (List Ptr)). has p (elim o [ none ↦ [] | some ps ↦ ps ])) h

not_consumes-some :
    (p : Ptr) (id : ℕ) (ms : List Miib) (ps : List Ptr)
    → block_with id ms ≡ some ps
    → has p ps ≡ false
    → has p (consumers_of id ms) ≡ false
not_consumes-some p id ms ps h k =
    ap (λ (o : Option (List Ptr)). has p (elim o [ none ↦ [] | some ps ↦ ps ])) h ∙ k

pub get_miib-set_consumers :
    (id : ℕ) (cs ps : List Ptr) (ms : List Miib)
    → get_miib id ms ≡ some cs
    → get_miib id (set_consumers id ps ms) ≡ some ps
unfolding get_miib set_consumers
get_miib-set_consumers id cs ps [] h = cc
get_miib-set_consumers id cs ps (m ∷ ms) h = elim (Bool-cases (m.msg_id == sign_extended id)) [
  | inl y ↦ rw y (rw y refl)
  | inr n ↦ rw n (rw n (get_miib-set_consumers id cs ps ms (rw n at h)))
]

block_with-snoc :
    (id : ℕ) (cs : List Ptr) (ms : List Miib)
    → block_with id ms ≡ none
    → block_with id (ms ++ record { msg_id = id; consumers = cs } ∷ []) ≡ some cs
block_with-snoc id cs [] h = rw (==_self id) refl
block_with-snoc id cs (m ∷ ms) h = elim (Bool-cases (m.msg_id == id)) [
  | inl y ↦ absurd (ground arith)
  | inr n ↦ rw n (block_with-snoc id cs ms (rw n at h))
]

has-add_client : (cs : List Ptr) (p : Ptr) → has p (add_client true cs p) ≡ true
unfolding add_client
has-add_client cs p = elim (Bool-cases (has p cs)) [
  | inl y ↦ rw y y
  | inr n ↦ rw n (ground (arith, has-append p cs (p ∷ []), ==_self p))
]

not-has-get_miib :
    (id : ℕ) (ms : List Miib) → has (sign_extended id) (ids ms) ≡ false → get_miib id ms ≡ none
unfolding get_miib
not-has-get_miib id [] h = refl
not-has-get_miib id (m ∷ ms) h = elim (Bool-cases (m.msg_id == sign_extended id)) [
  | inl y ↦ absurd (
      ground (
        arith,
        sym (ap (has (sign_extended id)) (ids_of-found id m (ids ms) y)) ∙ h,
        ==_self (sign_extended id),
      ))
  | inr n ↦ rw n (not-has-get_miib id ms (has-ids_of_rest (sign_extended id) m (ids ms) h))
]

get_miib-remove_miib :
    (id : ℕ) (ms : List Miib) → Distinct (ids ms) → get_miib id (remove_miib id ms) ≡ none
get_miib-remove_miib id ms d = not-has-get_miib id (remove_miib id ms) (
    rw (ids-remove_miib id ms) (
      ground (
        arith,
        has-erase (sign_extended id) (sign_extended id) (ids ms) d,
        ==_self (sign_extended id),
      )))

-- The blocks after a client was added, with the block of the ID.
add_consumer-found :
    (id : ℕ) (p : Ptr) (ms : List Miib)
    → id < 2 ^ 31
    → (k : ℕ) × (ns : List Miib) × (cs : List Ptr) × (add_consumer true true id p ms ≡ some (k, ns))
      × (block_with id ns ≡ some cs)
      × (has p cs ≡ true)
unfolding add_consumer
add_consumer-found id p ms small = elim (Option-cases (get_miib id ms)) [
  | inl n ↦
      let new = add_client true [] p in
      (
        id,
        ms ++ record { msg_id = id; consumers = new } ∷ [],
        new,
        rw (add_consumer, n) refl,
        block_with-snoc id new ms (sym (get_miib-block_with id ms small) ∙ n),
        has-add_client [] p,
      )
  | inr (cs, y) ↦
      let ns = set_consumers id (add_client true cs p) ms in
      (
        sign_extended id,
        ns,
        add_client true cs p,
        rw (add_consumer, y) refl,
        sym (get_miib-block_with id ns small)
            ∙ get_miib-set_consumers id cs (add_client true cs p) ms y,
        has-add_client cs p,
      )
]

module _ (sizes : Sizes) (env : Env) where
  -- A client that enables a message ID below 2^31 is a consumer of it, if `malloc` succeeds; the clients
  -- stay.
  pub on_enable-consumes :
      (alloc : Alloc) (hdr : Hdr) (x : Ptr) (w : Work)
      → hdr.target_msg_id < 2 ^ 31
      → alloc.miib_ok ≡ true
      → alloc.cib_ok ≡ true
      → (sender w x hdr == null) ≡ false
      → (ps : List Ptr) × (block_with hdr.target_msg_id
            (on_enable sizes env alloc hdr x w).miib_list
          ≡ some ps)
        × (has (sender w x hdr) ps ≡ true)
        × ((on_enable sizes env alloc hdr x w).pibs ≡ w.pibs)
        × ((on_enable sizes env alloc hdr x w).pib_list ≡ w.pib_list)
  unfolding on_enable
  on_enable-consumes alloc hdr x w small a b h =
      let p = sender w x hdr in
      let id = hdr.target_msg_id in
      let (k, ns, cs, made, found, member) = add_consumer-found id p w.miib_list small in
      let here : add_consumer alloc.miib_ok alloc.cib_ok id p w.miib_list ≡ some (k, ns) =
        rw (a, b) made in
      let told = register_all_remotes sizes env (record w { miib_list = ns }) k true x w.pib_list in
      let e : on_enable sizes env alloc hdr x w ≡ told = rw (on_enable, h, here) refl in
      let o =
        register_all_remotes-OnlyCalls sizes env (record w { miib_list = ns }) k true x
          w.pib_list in
      (cs, rw (e, o.blocks) found, member, rw e o.pibs, rw e o.clients)

  -- A client that disables a message ID below 2^31 is no consumer of it any more, where the lists are
  -- consistent.
  pub on_disable-not_consumes :
      (hdr : Hdr) (x : Ptr) (w : Work)
      → hdr.target_msg_id < 2 ^ 31
      → IsValid w
      → (sender w x hdr == null) ≡ false
      → has
          (sender w x hdr)
          (consumers_of hdr.target_msg_id (on_disable sizes env hdr x w).miib_list)
        ≡ false
  unfolding on_disable
  on_disable-not_consumes hdr x w small v h =
      let p = sender w x hdr in
      let id = hdr.target_msg_id in
      let exact : (ms : List Miib) → block_with id ms ≡ get_miib id ms =
        λ ms. sym (get_miib-block_with id ms small) in
      elim (Option-cases (get_miib id w.miib_list)) [
        | inl n ↦ rw (on_disable, h, n) (not_consumes-none p id w.miib_list (exact w.miib_list ∙ n))
        | inr (ps, y) ↦
            let left = erase p ps in
            let new = set_consumers id left w.miib_list in
            let o =
              register_all_remotes-OnlyCalls sizes env (record w { miib_list = new }) id false x
                w.pib_list in
            let out : has p left ≡ false = ground (
              arith,
              has-erase p p ps (get_miib-MiibOk w.pib_list id w.miib_list ps v.blocks y).1,
              ==_self p,
            ) in
            elim (Bool-cases (is_empty left)) [
              | inr f ↦
                  rw (on_disable, h, y, f)
                    (not_consumes-some p id new left
                      (exact new ∙ get_miib-set_consumers id ps left w.miib_list y) out)
              | inl t ↦
                  rw (on_disable, h, y, t, o.blocks)
                    (not_consumes-none p id (remove_miib id new) (
                      exact (remove_miib id new)
                      ∙ get_miib-remove_miib id new (
                          subst Distinct (sym (ids-set_consumers id left w.miib_list))
                            v.ids_distinct)))
            ]
      ]
