-- ===== src/MsgRouter/Leave.antt =====
-- msgRouter.c: a client that leaves, and the lists.
use mathlib.Core.Path.{subst}
use radlib.Base.{
  if◌then◌else◌, ℕ, ◌≡◌, refl, sym, ◌∙◌, ◌≢◌, true, false, ◌==◌, List, [], ◌∷◌, arith, Bool-cases,
  inl, inr, ◌⊎◌, ==_ne,
}
use radlib.Base.Lists.{has, erase, All, All-map, has-erase, Distinct-erase}
use radlib.RadList.{Ptr, null}
use radlib.MsgRouter.{Pib, Work, log, find_pid, get_pib_by_pid, remove_client_from_all_msgs}
use radlib.MsgRouter.Handler.{Hdr, sender, close_client, drop_client, on_deregister}
use radlib.MsgRouter.Valid.{Known, IsValid, remove_client-MiibOk, Distinct-remove_client}
use radlib.MsgRouter.Frame.{SameLists, SameLists-IsValid}

-- NULL, or a client on the list.
abbrev pub IsClient : Work → Ptr → Type 0
IsClient w p = (p ≡ null) ⊎ (has p w.pib_list ≡ true)

one_more :
    (q p : Ptr) (ps : List Ptr)
    → (q ≡ null) ⊎ (has q ps ≡ true)
    → (q ≡ null) ⊎ (has q (p ∷ ps) ≡ true)
one_more q p ps (inl e) = inl e
one_more q p ps (inr h) = inr (ground arith)

find_pid-IsClient :
    (pibs : Ptr → Pib) (pid : ℕ) (ps : List Ptr)
    → (find_pid pibs pid ps ≡ null) ⊎ (has (find_pid pibs pid ps) ps ≡ true)
unfolding find_pid
find_pid-IsClient pibs pid [] = inl refl
find_pid-IsClient pibs pid (p ∷ ps) = elim (Bool-cases ((pibs p).pid == pid)) [
  | inl y ↦
      let e : find_pid pibs pid (p ∷ ps) ≡ p = rw y refl in
      subst (λ q. (q ≡ null) ⊎ (has q (p ∷ ps) ≡ true)) (sym e) (inr (ground arith))
  | inr n ↦
      let e : find_pid pibs pid (p ∷ ps) ≡ find_pid pibs pid ps = rw n refl in
      subst (λ q. (q ≡ null) ⊎ (has q (p ∷ ps) ≡ true)) (sym e)
        (one_more (find_pid pibs pid ps) p ps (find_pid-IsClient pibs pid ps))
]

pub sender-IsClient : (w : Work) (x : Ptr) (hdr : Hdr) → IsClient w x → IsClient w (sender w x hdr)
unfolding sender get_pib_by_pid
sender-IsClient w x hdr h = elim (Bool-cases (x == null)) [
  | inl y ↦ rw y (find_pid-IsClient w.pibs hdr.srcpid w.pib_list)
  | inr n ↦ rw n h
]

-- A sender that is not NULL is a client.
pub known_sender :
    (w : Work) (p : Ptr) → IsClient w p → (p == null) ≡ false → has p w.pib_list ≡ true
known_sender w p (inl e) n = absurd (ground arith)
known_sender w p (inr h) n = h

pub drop_client-IsValid : (w : Work) (p : Ptr) → IsValid w → IsValid (drop_client p w)
unfolding drop_client remove_client_from_all_msgs
drop_client-IsValid w p v = record {
  distinct = Distinct-erase p w.pib_list v.distinct;
  non_null = ground (arith, has-erase null p w.pib_list v.distinct, v.non_null);
  blocks = remove_client-MiibOk p w.pib_list v.distinct w.miib_list v.blocks;
  ids_distinct = Distinct-remove_client p w.miib_list v.ids_distinct;
}

close_client-SameLists : (w : Work) (x p : Ptr) → SameLists w (close_client x p w)
unfolding close_client log
close_client-SameLists w x p = elim (Bool-cases (x == null)) [
  | inl y ↦ rw y (record { clients = refl; blocks = refl })
  | inr n ↦ rw n (record { clients = refl; blocks = refl })
]

pub on_deregister-IsValid :
    (w : Work) (x : Ptr) (hdr : Hdr) → IsValid w → IsValid (on_deregister hdr x w)
unfolding on_deregister
on_deregister-IsValid w x hdr v = elim (Bool-cases (sender w x hdr == null)) [
  | inl y ↦ rw y v
  | inr n ↦ rw n (
      SameLists-IsValid (close_client-SameLists (drop_client (sender w x hdr) w) x (sender w x hdr))
        (drop_client-IsValid w (sender w x hdr) v))
]

not-Known : (p : Ptr) (ps cs : List Ptr) → Known ps cs → has p ps ≡ false → has p cs ≡ false
not-Known p ps [] k h = refl
not-Known p ps (c ∷ cs) k h = ground (arith, not-Known p ps cs k.1 h, k.0)

-- A client that deregisters is off the list of clients, and it is no consumer of any message ID; the
-- other clients stay.
pub on_deregister_lem :
    (w : Work) (x : Ptr) (hdr : Hdr)
    → IsValid w
    → sender w x hdr ≢ null
    → (has (sender w x hdr) (on_deregister hdr x w).pib_list ≡ false)
      × All (λ m. has (sender w x hdr) m.consumers ≡ false) (on_deregister hdr x w).miib_list
      × ((a : Ptr)
          → has a (on_deregister hdr x w).pib_list
            ≡ (if a == sender w x hdr then false else has a w.pib_list))
unfolding on_deregister
on_deregister_lem w x hdr v ne =
    let p = sender w x hdr in
    let s = close_client-SameLists (drop_client p w) x p in
    let e : (drop_client p w).pib_list ≡ erase p w.pib_list =
      unfold drop_client remove_client_from_all_msgs in refl in
    let f = s.clients ∙ e in
    let d = drop_client-IsValid w p v in
    let gone : has p (erase p w.pib_list) ≡ false =
      ground (arith, has-erase p p w.pib_list v.distinct) in
    rw (==_ne p null ne) (
      rw f gone,
      rw s.blocks (
          All-map _ _ (drop_client p w).miib_list
            (λ m h. not-Known p (drop_client p w).pib_list m.consumers h.0 (rw e gone)) d.blocks),
      λ a. rw f (ground (arith, has-erase a p w.pib_list v.distinct)),
    )
