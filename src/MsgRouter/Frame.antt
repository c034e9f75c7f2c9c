-- ===== src/MsgRouter/Frame.antt =====
-- msgRouter.c: sending, and the lists of the router.
use mathlib.Core.Path.{subst}
use radlib.Base.{
  ℕ, ◌%◌, ◌+◌, ◌≡◌, refl, sym, ◌∙◌, Bool, true, false, if◌then◌else◌, ◌==◌, ◌||◌, ltb, List, [],
  ◌∷◌, Bool-cases, inl, inr,
}
use radlib.Base.Lists.{length, Distinct}
use radlib.SysDefs.{Status, ok, error, uint_mod}
use radlib.RadList.{Ptr}
use radlib.MsgRouter.{
  PibType, pib_type_local, pib_type_remote, Miib, Payload, Work, Env, log, set_pib, enable_msgid,
  disable_msgid, message,
}
use radlib.MsgRouter.Send.{
  Sizes, send_to_remote, send_answer, register_remote_msgid, register_one, register_all_remotes,
  count_rx_error, count_sent, send_local, send_remote, send_to_client, route_one, route,
}
use radlib.MsgRouter.Valid.{IsValid}

-- Two states with the same lists.
pub record SameLists (w v : Work) : Type 0 where
  pub clients : v.pib_list ≡ w.pib_list
  pub blocks : v.miib_list ≡ w.miib_list

pub SameLists-refl : (w : Work) → SameLists w w
SameLists-refl w = record { clients = refl; blocks = refl }

pub SameLists-trans : {u v w : Work} → SameLists u v → SameLists v w → SameLists u w
SameLists-trans p q = record { clients = q.clients ∙ p.clients; blocks = q.blocks ∙ p.blocks }

pub SameLists-IsValid : {w v : Work} → SameLists w v → IsValid w → IsValid v
SameLists-IsValid {w} {v} s h = record {
  distinct = subst Distinct (sym s.clients) h.distinct;
  non_null = rw s.clients h.non_null;
  blocks = rw (s.clients, s.blocks) h.blocks;
  ids_distinct = rw s.blocks h.ids_distinct;
}

-- What the router sends changes no list.
module _ (sizes : Sizes) (env : Env) where
  send_to_remote-SameLists :
      (w : Work) (p : Ptr) (m : Payload) (n : ℕ) → SameLists w (send_to_remote sizes env w p m n).0
  unfolding send_to_remote log
  send_to_remote-SameLists w p m n = elim (Bool-cases (env.has_buffer w.events (sizes.hdr + n))) [
    | inl y ↦ rw y (record { clients = refl; blocks = refl })
    | inr f ↦ rw f (SameLists-refl w)
  ]

  pub send_answer-SameLists :
      (w : Work) (p : Ptr) (m : Payload) → SameLists w (send_answer sizes env w p m).0
  unfolding send_answer log
  send_answer-SameLists w p m =
      elim (Bool-cases (env.has_buffer w.events (sizes.hdr + sizes.internal_msg))) [
        | inl y ↦ rw y (record { clients = refl; blocks = refl })
        | inr f ↦ rw f (SameLists-refl w)
      ]

  after_send :
      (u w : Work) (r : Status) (k : Work → Work × Status)
      → SameLists u w
      → ((v : Work) → SameLists v (k v).0)
      → SameLists u (let x : Work × Status = elim r [ ok ↦ k w | error ↦ (w, error) ] in x).0
  after_send u w ok k s f = SameLists-trans s (f w)
  after_send u w error k s f = s

  pub register_remote_msgid-SameLists :
      (w : Work) (p : Ptr) (id : ℕ) (b : Bool) (ms : List Miib)
      → SameLists w (register_remote_msgid sizes env w p id b ms).0
  unfolding register_remote_msgid
  register_remote_msgid-SameLists w p id b [] = SameLists-refl w
  register_remote_msgid-SameLists w p id b (m ∷ ms) =
      let note = if b then enable_msgid m.msg_id else disable_msgid m.msg_id in
      let go = λ (v : Work). register_remote_msgid-SameLists v p id b ms in
      elim (Bool-cases ((id == 0) || (m.msg_id == id))) [
        | inl y ↦ rw y (
            after_send w (send_to_remote sizes env w p note sizes.internal_msg).0
              (send_to_remote sizes env w p note sizes.internal_msg).1
              (λ v. register_remote_msgid sizes env v p id b ms)
              (send_to_remote-SameLists w p note sizes.internal_msg) (λ v. go v))
        | inr n ↦ rw n (go w)
      ]

  register_one-SameLists :
      (w : Work) (id : ℕ) (b : Bool) (x p : Ptr) → SameLists w (register_one sizes env w id b x p)
  unfolding register_one
  register_one-SameLists w id b x p = told (p == x) (w.pibs p).type
    where
      told :
          (same : Bool) (t : PibType)
          → SameLists w (
              if same then w else elim t [
                | pib_type_remote ↦ (register_remote_msgid sizes env w p id b w.miib_list).0
                | pib_type_local ↦ w
              ])
      told true t = SameLists-refl w
      told false pib_type_remote = register_remote_msgid-SameLists w p id b w.miib_list
      told false pib_type_local = SameLists-refl w

  pub register_all_remotes-SameLists :
      (w : Work) (id : ℕ) (b : Bool) (x : Ptr) (ps : List Ptr)
      → SameLists w (register_all_remotes sizes env w id b x ps)
  unfolding register_all_remotes
  register_all_remotes-SameLists w id b x [] = SameLists-refl w
  register_all_remotes-SameLists w id b x (p ∷ ps) =
      SameLists-trans (register_one-SameLists w id b x p)
        (register_all_remotes-SameLists (register_one sizes env w id b x p) id b x ps)

  send_local-SameLists :
      (w : Work) (p : Ptr) (id : ℕ) (bytes : List ℕ)
      → SameLists w (send_local sizes env w p id bytes).0
  unfolding send_local count_rx_error count_sent log set_pib
  send_local-SameLists w p id bytes = elim (Bool-cases (env.has_buffer w.events (length bytes))) [
    | inl y ↦ rw y (elim (Bool-cases (env.accepts w.events p)) [
      | inl e ↦ rw e (record { clients = refl; blocks = refl })
      | inr f ↦ rw f (record { clients = refl; blocks = refl })
    ])
    | inr n ↦ rw n (SameLists-refl w)
  ]

  after_remote :
      (u w : Work) (p : Ptr) (r : Status)
      → SameLists u w
      → SameLists u
          (let x : Work × Status = elim r [
            | error ↦ (count_rx_error sizes env w p, error)
            | ok ↦ (count_sent sizes env w p, ok)
          ] in
            x).0
  unfolding count_rx_error count_sent set_pib
  after_remote u w p ok s = record { clients = s.clients; blocks = s.blocks }
  after_remote u w p error s = record { clients = s.clients; blocks = s.blocks }

  send_remote-SameLists :
      (w : Work) (p : Ptr) (id : ℕ) (bytes : List ℕ)
      → SameLists w (send_remote sizes env w p id bytes).0
  unfolding send_remote
  send_remote-SameLists w p id bytes =
      let (v, r) = send_to_remote sizes env w p (message (id % uint_mod) bytes) (length bytes) in
      elim (Bool-cases (ltb (w.pibs p).max_msg_size (length bytes))) [
        | inl y ↦ rw y (unfold count_rx_error set_pib in record { clients = refl; blocks = refl })
        | inr n ↦ rw n (
            after_remote w v p r
              (send_to_remote-SameLists w p (message (id % uint_mod) bytes) (length bytes)))
      ]

  pub route_one-SameLists :
      (w : Work) (x : Ptr) (id : ℕ) (bytes : List ℕ) (p : Ptr)
      → SameLists w (route_one sizes env w x id bytes p)
  unfolding route_one send_to_client
  route_one-SameLists w x id bytes p = sent (p == x) (w.pibs p).type
    where
      sent :
          (same : Bool) (t : PibType)
          → SameLists w (
              if same
              then w
              else (let y : Work × Status = elim t [
                | pib_type_local ↦ send_local sizes env w p id bytes
                | pib_type_remote ↦ send_remote sizes env w p id bytes
              ] in
                  y).0)
      sent true t = SameLists-refl w
      sent false pib_type_local = send_local-SameLists w p id bytes
      sent false pib_type_remote = send_remote-SameLists w p id bytes

  pub route-SameLists :
      (w : Work) (x : Ptr) (id : ℕ) (bytes : List ℕ) (ps : List Ptr)
      → SameLists w (route sizes env w x id bytes ps)
  unfolding route
  route-SameLists w x id bytes [] = SameLists-refl w
  route-SameLists w x id bytes (p ∷ ps) =
      SameLists-trans (route_one-SameLists w x id bytes p)
        (route-SameLists (route_one sizes env w x id bytes p) x id bytes ps)
