-- ===== src/MsgRouter/Due.antt =====
-- msgRouter.c: the sends that a message is due.
use radlib.Base.{
  ℕ, ◌%◌, ◌≡◌, refl, sym, append_assoc, Bool, true, false, if◌then◌else◌, ◌==◌, ltb, List, [], ◌∷◌,
  ◌++◌, Bool-cases, inl, inr, eq_of_==,
}
use radlib.Base.Lists.{length, has}
use radlib.SysDefs.{uint_mod}
use radlib.RadList.{Ptr}
use radlib.MsgRouter.{
  PibType, pib_type_local, pib_type_remote, Pib, Event, queue_send, socket_write, Work, set_pib,
  message,
}
use radlib.MsgRouter.Handler.{count_transmit}

-- The send to a client that is due: none if the buffers of a remote client are too small.
abbrev pub due_one : PibType → (max_msg_size : ℕ) → Ptr → (id : ℕ) → List ℕ → List Event
due_one pib_type_local max_msg_size p id bytes = queue_send p (message (id % uint_mod) bytes) ∷ []
due_one pib_type_remote max_msg_size p id bytes =
    if ltb max_msg_size (length bytes)
    then []
    else socket_write p (message (id % uint_mod) bytes) ∷ []

-- What the loop does for a client: nothing for the socket that the message came from.
abbrev pub due_here : Bool → List Event → List Event
due_here true es = []
due_here false es = es

-- The sends that a message is due, one to each consumer, in their order.
unfoldable pub due : (Ptr → Pib) → (sock_pib : Ptr) → (id : ℕ) → List ℕ → List Ptr → List Event
due pibs x id bytes [] = []
due pibs x id bytes (p ∷ ps) =
    due_here (p == x) (due_one (pibs p).type (pibs p).max_msg_size p id bytes)
    ++ due pibs x id bytes ps

-- Two states whose clients are of the same kind.
abbrev pub SameKinds : Work → Work → Type 0
SameKinds w v =
    (a : Ptr)
    → ((v.pibs a).type ≡ (w.pibs a).type) × ((v.pibs a).max_msg_size ≡ (w.pibs a).max_msg_size)

pub due-agree :
    (w v : Work) (x : Ptr) (id : ℕ) (bytes : List ℕ) (ps : List Ptr)
    → SameKinds w v
    → due v.pibs x id bytes ps ≡ due w.pibs x id bytes ps
unfolding due
due-agree w v x id bytes [] s = refl
due-agree w v x id bytes (p ∷ ps) s = rw ((s p).0, (s p).1, due-agree w v x id bytes ps s) refl

pub set_pib-SameKinds :
    (w : Work) (p : Ptr) (v : Pib)
    → v.type ≡ (w.pibs p).type
    → v.max_msg_size ≡ (w.pibs p).max_msg_size
    → SameKinds w (set_pib w p v)
unfolding set_pib
set_pib-SameKinds w p v e f a = elim (Bool-cases (a == p)) [
  | inl y ↦ rw (y, eq_of_== a p y) (e, f)
  | inr n ↦ rw n (refl, refl)
]

pub count_transmit_same : (w : Work) (p : Ptr) → SameKinds w (count_transmit w p)
unfolding count_transmit
count_transmit_same w p = set_pib-SameKinds w p _ refl refl

-- A local consumer is due the message.
pub due-consumer :
    (pibs : Ptr → Pib) (x : Ptr) (id : ℕ) (bytes : List ℕ) (p : Ptr) (ps : List Ptr)
    → has p ps ≡ true
    → (p == x) ≡ false
    → (pibs p).type ≡ pib_type_local
    → (es : List Event) × (fs : List Event) × (due pibs x id bytes ps
        ≡ es ++ queue_send p (message (id % uint_mod) bytes) ∷ fs)
unfolding due
due-consumer pibs x id bytes p [] h n t = cc
due-consumer pibs x id bytes p (q ∷ ps) h n t = elim (Bool-cases (p == q)) [
  | inl y ↦ ([], due pibs x id bytes ps, rw (← eq_of_== p q y) (rw (n, t) refl))
  | inr f ↦
      let (es, fs, e) = due-consumer pibs x id bytes p ps (rw f at h) n t in
      let here = due_here (q == x) (due_one (pibs q).type (pibs q).max_msg_size q id bytes) in
      (
        here ++ es,
        fs,
        rw e (sym (append_assoc here es (queue_send p (message (id % uint_mod) bytes) ∷ fs))),
      )
]
