-- ===== src/MsgRouter.antt =====
-- msgRouter/msgRouter.c and h/radmsgRouter.h: the state of the message router and its lookups.
-- A list is the sequence of its nodes, as in `RadList`. A process information block (PIB) is
-- its address, a consumer block is the address of the PIB that it points to.
pub mod Send
pub mod Handler
pub mod Client
pub mod Connect
pub mod Peers
pub mod Calls
pub mod Settle
pub mod Subscribe
pub mod Run
pub mod Valid
pub mod Frame
pub mod Leave
pub mod Enable
pub mod Keep
pub mod Receive
pub mod Due
pub mod Route
mod Tests
use radlib.Base.{
  ℕ, zero, suc, ◌+◌, ◌^◌, ◌<◌, ◌≡◌, refl, Bool, true, false, if◌then◌else◌, ◌==◌, ◌&&◌, ◌||◌, not,
  Option, none, some, List, [], ◌∷◌, ◌++◌,
}
use radlib.Base.Lists.{has, erase}
use radlib.SysDefs.{sign_extended, sign_extended-int}
use radlib.RadList.{Ptr, null}

pub data PibType : Type 0 where
  pib_type_local pib_type_remote : PibType

-- `MSGRTR_PIB`. Names and sockets are numbers; socket 0 is NULL.
pub record Pib : Type 0 where
  pub type : PibType
  pub pid : ℕ
  pub queue_name : ℕ
  pub rxclient : ℕ
  pub txclient : ℕ
  pub max_msg_size : ℕ
  pub transmits : ℕ
  pub receives : ℕ
  pub rx_errors : ℕ
  pub tx_errors : ℕ

-- `MSGRTR_MIIB`: a message ID and its consumers.
pub record Miib : Type 0 where
  pub msg_id : ℕ
  pub consumers : List Ptr

abbrev pub internal_msgid : ℕ
internal_msgid = 0xFFFF_FFFF

abbrev pub magic_number : ℕ
magic_number = 0x59E7_23F3

-- What the router sends: acknowledgements, answers, (de)registrations with another router, and
-- routed messages with their ID; and the registration of the router itself with another one.
pub data Payload : Type 0 where
  ack : Payload
  is_registered : Bool → Payload
  enable_msgid : ℕ → Payload
  disable_msgid : ℕ → Payload
  register_router : Payload
  message : ℕ → List ℕ → Payload

-- The router's calls of other components: a try to send on the queue or the socket of a PIB,
-- attaching and detaching a queue, a first message on a new socket, closing a socket, waiting for a
-- socket or no longer, and starting the connection timer.
pub data Event : Type 0 where
  queue_send : Ptr → Payload → Event
  socket_write : Ptr → Payload → Event
  queue_attach : ℕ → Event
  queue_dettach : ℕ → Event
  greet : (socket : ℕ) → Payload → Event
  socket_destroy : ℕ → Event
  register_descriptor : ℕ → Ptr → Event
  deregister_descriptor : ℕ → Event
  connect_timer_start : Event

-- `MSGRTR_WORK`, with the memory of the PIBs and the calls made so far.
pub record Work : Type 0 where
  pub pibs : Ptr → Pib
  pub pib_list : List Ptr
  pub miib_list : List Miib
  pub remote_server : ℕ
  pub transmits : ℕ
  pub receives : ℕ
  pub events : List Event

-- What the other components answer, depending on all that happened before: whether a buffer of a
-- size is there (`radBufferGet`), and whether a send to a PIB succeeds.
pub record Env : Type 0 where
  pub has_buffer : List Event → ℕ → Bool
  pub accepts : List Event → Ptr → Bool

unfoldable pub log : Work → Event → Work
log w e = record w { events = w.events ++ e ∷ [] }

unfoldable pub set_pib : Work → Ptr → Pib → Work
set_pib w p v = record w { pibs = λ a. if a == p then v else w.pibs a }

-- `getPIBByPID`, NULL if there is none. The PID of a remote client is 0.
unfoldable pub find_pid : (Ptr → Pib) → ℕ → List Ptr → Ptr
find_pid pibs pid [] = null
find_pid pibs pid (p ∷ ps) = if (pibs p).pid == pid then p else find_pid pibs pid ps

unfoldable pub get_pib_by_pid : Work → ℕ → Ptr
unfolding find_pid
get_pib_by_pid w pid = find_pid w.pibs pid w.pib_list

-- `getPIBBySocket`, where `descriptor` is `radSocketGetDescriptor`.
unfoldable pub find_socket : (descriptor : ℕ → ℕ) → (Ptr → Pib) → ℕ → List Ptr → Ptr
find_socket descriptor pibs fd [] = null
find_socket descriptor pibs fd (p ∷ ps) =
    if not ((pibs p).txclient == 0) && (descriptor (pibs p).txclient == fd)
    then p
    else find_socket descriptor pibs fd ps

unfoldable pub get_pib_by_socket : (descriptor : ℕ → ℕ) → Work → ℕ → Ptr
unfolding find_socket
get_pib_by_socket descriptor w fd = find_socket descriptor w.pibs fd w.pib_list

-- `getMIIB`: the consumers of the first block whose message ID is the `int` that it is
-- called with.
unfoldable pub get_miib : ℕ → List Miib → Option (List Ptr)
get_miib id [] = none
get_miib id (m ∷ ms) = if m.msg_id == sign_extended id then some m.consumers else get_miib id ms

-- A change of the consumers of the block that `getMIIB` finds.
unfoldable pub set_consumers : ℕ → List Ptr → List Miib → List Miib
set_consumers id ps [] = []
set_consumers id ps (m ∷ ms) =
    if m.msg_id == sign_extended id
    then record m { consumers = ps } ∷ ms
    else m ∷ set_consumers id ps ms

-- The removal of the block that `getMIIB` finds.
unfoldable pub remove_miib : ℕ → List Miib → List Miib
remove_miib id [] = []
remove_miib id (m ∷ ms) = if m.msg_id == sign_extended id then ms else m ∷ remove_miib id ms

-- The consumers of the first block that has the message ID itself.
abbrev pub block_with : ℕ → List Miib → Option (List Ptr)
block_with id [] = none
block_with id (m ∷ ms) = if m.msg_id == id then some m.consumers else block_with id ms

pub get_miib-block_with :
    (id : ℕ) (ms : List Miib) → id < 2 ^ 31 → get_miib id ms ≡ block_with id ms
unfolding get_miib
get_miib-block_with id [] h = refl
get_miib-block_with id (m ∷ ms) h =
    rw (get_miib, sign_extended-int id h, get_miib-block_with id ms h) refl

abbrev pub is_empty : List Ptr → Bool
is_empty [] = true
is_empty (p ∷ ps) = false

-- `RemoveClientFromAllMsgs`. After the removal of a block that has no consumer left the walk goes on
-- from the block before, so to the one that followed.
unfoldable pub remove_client : Ptr → List Miib → List Miib
remove_client p [] = []
remove_client p (m ∷ ms) =
    let rest = remove_client p ms in
    let left = erase p m.consumers in
    if is_empty left then rest else record m { consumers = left } ∷ rest

unfoldable pub remove_client_from_all_msgs : Work → Ptr → Work
unfolding remove_client
remove_client_from_all_msgs w p = record w { miib_list = remove_client p w.miib_list }

-- `AddClient`, with whether `malloc` of the consumer block succeeds.
unfoldable pub add_client : (cib_ok : Bool) → List Ptr → Ptr → List Ptr
add_client cib_ok consumers p =
    if has p consumers then consumers else if cib_ok then consumers ++ p ∷ [] else consumers
