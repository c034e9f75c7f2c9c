-- ===== src/MsgRouter/Enable.antt =====
-- msgRouter.c: a consumer is added to a message ID.
use mathlib.Core.Path.{subst}
use radlib.Base.{
  ℕ, ◌≡◌, Bool, true, some, List, [], ◌∷◌, ◌++◌, arith, Bool-cases, Option-cases, inl, inr,
}
use radlib.Base.Lists.{has, All-snoc}
use radlib.RadList.{Ptr}
use radlib.MsgRouter.{Miib, get_miib, set_consumers, add_client}
use radlib.MsgRouter.Handler.{add_consumer}
use radlib.MsgRouter.Valid.{
  MiibOk, IsSound, get_miib-MiibOk, set_consumers-MiibOk, ids-set_consumers, get_miib-none,
  Distinct-new, add_client-MiibOk,
}

pub add_consumer-IsSound :
    (b c : Bool) (id : ℕ) (p : Ptr) (ps : List Ptr) (ms ns : List Miib) (k : ℕ)
    → has p ps ≡ true
    → IsSound ps ms
    → add_consumer b c id p ms ≡ some (k, ns)
    → IsSound ps ns
unfolding add_consumer
add_consumer-IsSound b c id p ps ms ns k h v e = elim (Option-cases (get_miib id ms)) [
  | inl n ↦
      let m : Miib = record { msg_id = id; consumers = add_client c [] p } in
      elim (Bool-cases b) [
        | inl y ↦
            let q : ms ++ m ∷ [] ≡ ns = ground arith in
            subst (IsSound ps) q (record {
              distinct = v.distinct;
              non_null = v.non_null;
              blocks = All-snoc (MiibOk ps) m ms v.blocks (add_client-MiibOk c ps [] p h (tt, tt));
              ids_distinct = Distinct-new m ms (get_miib-none id ms n) v.ids_distinct;
            })
        | inr f ↦ absurd (ground arith)
      ]
  | inr (cs, y) ↦
      let q : set_consumers id (add_client c cs p) ms ≡ ns = ground arith in
      subst (IsSound ps) q (record {
        distinct = v.distinct;
        non_null = v.non_null;
        blocks =
            set_consumers-MiibOk ps id (add_client c cs p) ms
              (add_client-MiibOk c ps cs p h (get_miib-MiibOk ps id ms cs v.blocks y)) v.blocks;
        ids_distinct = rw (ids-set_consumers id (add_client c cs p) ms) v.ids_distinct;
      })
]
