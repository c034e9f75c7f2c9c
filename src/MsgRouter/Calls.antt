-- ===== src/MsgRouter/Calls.antt =====
-- msgRouter.c: the calls of other components that the router makes, and what sending changes.
use radlib.Base.{
  ℕ, ◌≡◌, refl, sym, ◌∙◌, ◌+◌, Bool, true, false, if◌then◌else◌, ◌==◌, ◌||◌, ◌&&◌, not, List, [],
  ◌∷◌, ◌++◌, append_assoc, append-nil, arith, ==_self, Bool-cases, inl, inr,
}
use radlib.Base.Lists.{has}
use radlib.SysDefs.{Status, ok, error}
use radlib.RadList.{Ptr, null}
use radlib.MsgRouter.{
  PibType, pib_type_local, pib_type_remote, Pib, Miib, Payload, Event, socket_write, Work, Env, log,
  register_descriptor, socket_destroy, find_socket, enable_msgid, disable_msgid,
}
use radlib.MsgRouter.Send.{
  Sizes, send_to_remote, register_remote_msgid, register_one, register_all_remotes,
}
use radlib.MsgRouter.Connect.{discard}

-- The call is made after those of the first state.
abbrev pub Calls : Event → Work → Work → Type 0
Calls e w v = (es : List Event) × (fs : List Event) × (v.events ≡ w.events ++ (es ++ e ∷ fs))

-- A step that makes calls of other components and changes nothing else.
pub record OnlyCalls (w v : Work) : Type 0 where
  pub calls : List Event
  pub behind : v.events ≡ w.events ++ calls
  pub pibs : v.pibs ≡ w.pibs
  pub clients : v.pib_list ≡ w.pib_list
  pub blocks : v.miib_list ≡ w.miib_list

pub OnlyCalls-refl : (w : Work) → OnlyCalls w w
OnlyCalls-refl w = record {
  calls = [];
  behind = sym (append-nil w.events);
  pibs = refl;
  clients = refl;
  blocks = refl;
}

pub OnlyCalls-trans : {u v w : Work} → OnlyCalls u v → OnlyCalls v w → OnlyCalls u w
OnlyCalls-trans {u} {v} {w} p q = record {
  calls = p.calls ++ q.calls;
  behind = rw (q.behind, p.behind) (append_assoc u.events p.calls q.calls);
  pibs = q.pibs ∙ p.pibs;
  clients = q.clients ∙ p.clients;
  blocks = q.blocks ∙ p.blocks;
}

pub OnlyCalls-log : (w : Work) (e : Event) → OnlyCalls w (log w e)
unfolding log
OnlyCalls-log w e = record {
  calls = e ∷ [];
  behind = refl;
  pibs = refl;
  clients = refl;
  blocks = refl;
}

module _ (sizes : Sizes) (env : Env) where
  send_to_remote-OnlyCalls :
      (w : Work) (p : Ptr) (m : Payload) (n : ℕ) → OnlyCalls w (send_to_remote sizes env w p m n).0
  unfolding send_to_remote
  send_to_remote-OnlyCalls w p m n = elim (Bool-cases (env.has_buffer w.events (sizes.hdr + n))) [
    | inl y ↦ rw y (OnlyCalls-log w (socket_write p m))
    | inr f ↦ rw f (OnlyCalls-refl w)
  ]

  after_send :
      (u w : Work) (r : Status) (k : Work → Work × Status)
      → OnlyCalls u w
      → OnlyCalls w (k w).0
      → OnlyCalls u (let x : Work × Status = elim r [ ok ↦ k w | error ↦ (w, error) ] in x).0
  after_send u w ok k p q = OnlyCalls-trans p q
  after_send u w error k p q = p

  pub register_remote_msgid-OnlyCalls :
      (w : Work) (p : Ptr) (id : ℕ) (b : Bool) (ms : List Miib)
      → OnlyCalls w (register_remote_msgid sizes env w p id b ms).0
  unfolding register_remote_msgid
  register_remote_msgid-OnlyCalls w p id b [] = OnlyCalls-refl w
  register_remote_msgid-OnlyCalls w p id b (m ∷ ms) =
      let note = if b then enable_msgid m.msg_id else disable_msgid m.msg_id in
      let w' = (send_to_remote sizes env w p note sizes.internal_msg).0 in
      elim (Bool-cases ((id == 0) || (m.msg_id == id))) [
        | inr f ↦ rw f (register_remote_msgid-OnlyCalls w p id b ms)
        | inl t ↦ rw t (
            after_send w w' (send_to_remote sizes env w p note sizes.internal_msg).1
              (λ v. register_remote_msgid sizes env v p id b ms)
              (send_to_remote-OnlyCalls w p note sizes.internal_msg)
              (register_remote_msgid-OnlyCalls w' p id b ms))
      ]

pub Calls-log : (e : Event) {w v : Work} → OnlyCalls w v → Calls e w (log v e)
unfolding log
Calls-log e {w} {v} o = (o.calls, [], rw o.behind (append_assoc w.events o.calls (e ∷ [])))

Calls-then : (e : Event) (w v u : Work) → Calls e w v → OnlyCalls v u → Calls e w u
Calls-then e w v u (es, fs, q) o = (es, fs ++ o.calls, rw (o.behind, q) (simp append_assoc))

-- `w` comes before `u`, which may have changed a PIB.
pub Calls-before :
    (e : Event) (w u v : Work) (xs : List Event)
    → u.events ≡ w.events ++ xs
    → Calls e u v
    → Calls e w v
Calls-before e w u v xs q (es, fs, r) = (xs ++ es, fs, rw (r, q) (simp append_assoc))

discard-OnlyCalls : (ss : List ℕ) (w : Work) → OnlyCalls w (discard ss w)
unfolding discard
discard-OnlyCalls [] w = OnlyCalls-refl w
discard-OnlyCalls (s ∷ ss) w =
    OnlyCalls-trans (OnlyCalls-log w (socket_destroy s))
      (discard-OnlyCalls ss (log w (socket_destroy s)))

-- The socket of the connection is closed, and the lists are what they were.
pub record Closed (c : ℕ) (w v : Work) : Type 0 where
  pub closed : Calls (socket_destroy c) w v
  pub clients : v.pib_list ≡ w.pib_list
  pub blocks : v.miib_list ≡ w.miib_list

-- The connection belongs to a client on the list, and the router waits for what it sends.
pub record Joined (descriptor : ℕ → ℕ) (c : ℕ) (w v : Work) : Type 0 where
  pub client : Ptr
  pub known : has client v.pib_list ≡ true
  pub receives_from : (v.pibs client).rxclient ≡ c
  pub watched : Calls (register_descriptor (descriptor c) client) w v

-- Any of the sockets that are closed.
pub Closed-discard :
    (c : ℕ) (ss ts : List ℕ) {w v : Work} → OnlyCalls w v → Closed c w (discard (ss ++ c ∷ ts) v)
unfolding discard
Closed-discard c [] ts {w} {v} o =
    let rest = discard-OnlyCalls ts (log v (socket_destroy c)) in
    let e = OnlyCalls-log v (socket_destroy c) in
    record {
      closed = Calls-then (socket_destroy c) w _ _ (Calls-log (socket_destroy c) o) rest;
      clients = rest.clients ∙ e.clients ∙ o.clients;
      blocks = rest.blocks ∙ e.blocks ∙ o.blocks;
    }
Closed-discard c (s ∷ ss) ts {w} {v} o =
    Closed-discard c ss ts (OnlyCalls-trans o (OnlyCalls-log v (socket_destroy s)))

pick-known :
    (b : Bool) (p q : Ptr) (ps : List Ptr)
    → ((q == null) ≡ false → has q ps ≡ true)
    → ((if b then p else q) == null) ≡ false
    → has (if b then p else q) (p ∷ ps) ≡ true
pick-known true p q ps f h = ground (arith, ==_self p)
pick-known false p q ps f h = ground (arith, f h)

-- A lookup by socket finds NULL or a client on the list.
pub find_socket-known :
    (descriptor : ℕ → ℕ) (pibs : Ptr → Pib) (fd : ℕ) (ps : List Ptr)
    → (find_socket descriptor pibs fd ps == null) ≡ false
    → has (find_socket descriptor pibs fd ps) ps ≡ true
unfolding find_socket
find_socket-known descriptor pibs fd [] h = cc
find_socket-known descriptor pibs fd (p ∷ ps) h =
    pick-known (not ((pibs p).txclient == 0) && (descriptor (pibs p).txclient == fd)) p
      (find_socket descriptor pibs fd ps) ps (find_socket-known descriptor pibs fd ps) h

module _ (sizes : Sizes) (env : Env) where
  register_one-OnlyCalls :
      (w : Work) (id : ℕ) (b : Bool) (x p : Ptr) → OnlyCalls w (register_one sizes env w id b x p)
  unfolding register_one
  register_one-OnlyCalls w id b x p = told (p == x) (w.pibs p).type
    where
      told :
          (same : Bool) (t : PibType)
          → OnlyCalls w (
              if same then w else elim t [
                | pib_type_remote ↦ (register_remote_msgid sizes env w p id b w.miib_list).0
                | pib_type_local ↦ w
              ])
      told true t = OnlyCalls-refl w
      told false pib_type_remote = register_remote_msgid-OnlyCalls sizes env w p id b w.miib_list
      told false pib_type_local = OnlyCalls-refl w

  pub register_all_remotes-OnlyCalls :
      (w : Work) (id : ℕ) (b : Bool) (x : Ptr) (ps : List Ptr)
      → OnlyCalls w (register_all_remotes sizes env w id b x ps)
  unfolding register_all_remotes
  register_all_remotes-OnlyCalls w id b x [] = OnlyCalls-refl w
  register_all_remotes-OnlyCalls w id b x (p ∷ ps) =
      OnlyCalls-trans (register_one-OnlyCalls w id b x p)
        (register_all_remotes-OnlyCalls (register_one sizes env w id b x p) id b x ps)
