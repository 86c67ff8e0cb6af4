-- ===== src/Msgq/Ring.antt =====
-- lib/lmsgQLib.c: the circular extent of messages (data_extent_for, urgent_msg_to, send_msg_to,
-- fetch_msg_from). A pointer to an element is the element's number, and `none` stands for an access
-- outside an object.
pub mod View
pub mod Valid
pub mod Copy
pub mod Refine
pub mod Fetch
use cross_compile.Base.{
  ℕ, zero, suc, ◌+◌, ◌-◌, ◌*◌, ◌^◌, Bool, true, false, Option, none, some, List, [], ◌∷◌, leb, ltb,
  ◌==◌, if◌then◌else◌, get_or, set, replicate,
}
use cross_compile.Msgq.Types.{
  SendType, send, urgnt, killd, Slot, no_slot, Mqueue, is_null, broadcast_send,
}

infixl 5 ◌>>=◌
abbrev pub ◌>>=◌ : {A B : Type 0} → Option A → (A → Option B) → Option B
none >>= f = none
some a >>= f = f a

-- `for (i = 0; i < n; i++) *(dst + i) = *(src + i);`
unfoldable pub copy_bytes : ℕ → List ℕ → List ℕ → Option (List ℕ)
copy_bytes zero src dst = some dst
copy_bytes (suc n) [] dst = none
copy_bytes (suc n) (s ∷ src) [] = none
copy_bytes (suc n) (s ∷ src) (d ∷ dst) = do rest ← copy_bytes n src dst; some (s ∷ rest)

-- Nothing is copied from a NULL message.
pub copy_in : Option (List ℕ) → ℕ → List ℕ → Option (List ℕ)
unfolding copy_bytes
copy_in none n dst = some dst
copy_in (some msg) n dst = copy_bytes n msg dst

-- The message in the element at `i`, with its length.
pub store_at : Mqueue → ℕ → Option (List ℕ) → ℕ → Option (List Slot)
unfolding copy_in
store_at q i msg msglen = do
  buf ← copy_in msg msglen (get_or q.extent i no_slot).msgbuf
  some (set q.extent i (record { msglen = msglen; msgbuf = buf }))

-- A pointer that steps below the first element, or beyond the last, goes round. The code forms the pointer
-- below the first element before it puts it right; that pointer is not followed, and forming it, which
-- C leaves undefined, is taken to give the number -1.
abbrev pub before : Mqueue → ℕ → ℕ
before q i = if i == 0 then q.msgs_per_queue else i - 1

abbrev pub after : Mqueue → ℕ → ℕ
after q i = if ltb q.msgs_per_queue (i + 1) then 0 else i + 1

unfoldable pub urgent_msg_to : Mqueue → Option (List ℕ) → ℕ → Option Mqueue
unfolding store_at
urgent_msg_to q msg msglen = do
  let head = before q q.queue_head
  slots ← store_at q head msg msglen
  some (record q {
    queue_head = head;
    send_type = urgnt;
    extent = slots;
    msg_count = q.msg_count + 1;
  })

unfoldable pub send_msg_to : Mqueue → Option (List ℕ) → ℕ → Option Mqueue
unfolding store_at
send_msg_to q msg msglen = do
  slots ← store_at q q.queue_tail msg msglen
  some (record q {
    queue_send = q.queue_send + 1;
    queue_tail = after q q.queue_tail;
    send_type = send;
    extent = slots;
    msg_count = q.msg_count + 1;
  })

-- The caller's buffer with the message in it, and the length of the message.
unfoldable pub copy_out : Slot → Option (List ℕ) → Option (Option (List ℕ) × ℕ)
unfolding copy_bytes
copy_out s none = some (none, 0)
copy_out s (some msg) = do out ← copy_bytes s.msglen s.msgbuf msg; some (some out, s.msglen)

-- `*element = '\0'` at the start of the bytes of element `i`. Where the elements have no bytes it
-- is the (zero) length of the next element that is written, and the last element has no next one.
unfoldable pub clear_first : Mqueue → ℕ → List ℕ → Option (List ℕ)
clear_first q i [] = if ltb i q.msgs_per_queue then some [] else none
clear_first q i (b ∷ bs) = some (0 ∷ bs)

-- Tasks that wait for space are alerted if there is some.
unfoldable pub alert_space : Mqueue → Mqueue
alert_space q =
    if is_null q.first_write_susp
    then q
    else if leb (q.msg_count + 1) q.msgs_per_queue
    then record q { queue_space = q.queue_space + 1 }
    else q

unfoldable pub fetch_msg_from : Mqueue → Option (List ℕ) → Option (Mqueue × Option (List ℕ) × ℕ)
fetch_msg_from q msg = do
  let slot = get_or q.extent q.queue_head no_slot
  (out, msglen) ← copy_out slot msg
  cleared ← clear_first q q.queue_head slot.msgbuf
  let slots = set q.extent q.queue_head (record { msglen = 0; msgbuf = cleared })
  let taken = record q {
    queue_head = after q q.queue_head;
    extent = slots;
    msg_count = q.msg_count - 1;
  }
  some (alert_space taken, out, msglen)

-- sizeof(q_msg_t) - sizeof(char *), on an LP64 machine.
abbrev header_size : ℕ
header_size = 8

-- The extent of msgs_per_queue + 1 zeroed elements. `bzero` is told the size as an int.
unfoldable pub data_extent_for : Mqueue → Option Mqueue
data_extent_for q =
    let size = header_size + q.msg_len in
    if leb (2 ^ 31) (size * (q.msgs_per_queue + 1))
    then none
    else some (record q {
      vmsg_len = size;
      extent =
          replicate (q.msgs_per_queue + 1) (record { msglen = 0; msgbuf = replicate q.msg_len 0 });
    })
