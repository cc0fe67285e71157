-- ===== src/Demo/UdpServer/Reports.antt =====
-- What the UDP demo server prints of whole messages and of short ones.
use gateway_forge.Common.{
  ℕ, ◌+◌, ◌-◌, ◌^◌, ◌≤◌, ◌<◌, ◌≡◌, refl, ap, ◌∙◌, [], ◌∷◌, ◌++◌, arith, ltb, length, take, drop,
  length-append, length-drop, inl, inr, Bool-cases, ltb→lt, ltb-false→le,
}
use gateway_forge.Common.Words.{Bytes, be_value, be_bytes}
use gateway_forge.Common.Text.{Text}
use gateway_forge.Common.Outcome.{Outcome, done, fails, indeterminate}
use gateway_forge.Demo.UdpServer.{
  UdpServer, datagram, written, read_word, device_text, device_report, datagram_report, arrived,
  on_arrival, on_arrivals,
}

abbrev word : Bytes → ℕ → ℕ → ℕ
word buf offset n = be_value (take n (drop offset buf))

read_word_set :
    (buf : Bytes) (offset n : ℕ)
    → offset + n ≤ length buf
    → read_word buf offset n ≡ done (word buf offset n)
unfolding read_word
read_word_set buf offset n h = ground arith

read_word_unset :
    (buf : Bytes) (offset n : ℕ)
    → length buf < offset + n
    → read_word buf offset n ≡ fails indeterminate
unfolding read_word
read_word_unset buf offset n h = ground arith

-- The report of a buffer with the magic number, of which sixteen bytes are set, or fewer.
datagram_report_set :
    (buf : Bytes) (n : ℕ)
    → 10 ≤ n
    → 16 ≤ length buf
    → word buf 0 2 ≡ 51966
    → datagram_report buf n ≡ done (device_text (word buf 4 8) (word buf 3 1) (word buf 12 4))
unfolding datagram_report device_report
datagram_report_set buf n long set magic =
    rw
      (
        read_word_set buf 0 2 (omega arith),
        read_word_set buf 2 1 (omega arith),
        read_word_set buf 3 1 (omega arith),
        read_word_set buf 4 8 (omega arith),
        read_word_set buf 12 4 (omega arith),
        magic,
      )
      (ground (arith, long))

device_report_unset :
    (buf : Bytes) → 10 ≤ length buf → length buf < 16 → device_report buf ≡ fails indeterminate
unfolding device_report
device_report_unset buf set unset = elim (Bool-cases (ltb (length buf) 12)) [
  | inl short ↦
      rw
        (
          read_word_set buf 2 1 (omega arith),
          read_word_set buf 3 1 (omega arith),
          read_word_unset buf 4 8 (omega (arith, ltb→lt _ _ short)),
        )
        refl
  | inr long ↦
      rw
        (
          read_word_set buf 2 1 (omega arith),
          read_word_set buf 3 1 (omega arith),
          read_word_set buf 4 8 (omega (arith, ltb-false→le _ _ long)),
          read_word_unset buf 12 4 (omega arith),
        )
        refl
]

datagram_report_unset :
    (buf : Bytes) (n : ℕ)
    → 10 ≤ n
    → 10 ≤ length buf
    → length buf < 16
    → word buf 0 2 ≡ 51966
    → datagram_report buf n ≡ fails indeterminate
unfolding datagram_report
datagram_report_unset buf n long set unset magic =
    rw (read_word_set buf 0 2 (omega arith), device_report_unset buf set unset, magic)
      (ground (arith, long))

-- A device's message, in network order.
abbrev pub device_message : ℕ → ℕ → ℕ → ℕ → Bytes → Bytes
device_message version msg_type device_id seq rest =
    be_bytes 2 51966 ++ (version ∷ msg_type ∷ (be_bytes 8 device_id ++ (be_bytes 4 seq ++ rest)))

be_value_8 : (n : ℕ) → n < 2 ^ 64 → be_value (be_bytes 8 n) ≡ n
be_value_8 n h = omega arith

be_value_4 : (n : ℕ) → n < 2 ^ 32 → be_value (be_bytes 4 n) ≡ n
be_value_4 n h = omega arith

device_text_lem :
    (device_id device_id' msg_type msg_type' seq seq' : ℕ)
    → device_id ≡ device_id'
    → msg_type ≡ msg_type'
    → seq ≡ seq'
    → ◌≡◌ {A = Outcome Text}
        (done (device_text device_id msg_type seq))
        (done (device_text device_id' msg_type' seq'))
device_text_lem _ _ _ _ _ _ d t s i = done (device_text (d i) (t i) (s i))

device_report_lem :
    (version msg_type device_id seq : ℕ) (rest : Bytes) (n : ℕ)
    → 10 ≤ n
    → device_id < 2 ^ 64
    → seq < 2 ^ 32
    → datagram_report (device_message version msg_type device_id seq rest) n
      ≡ done (device_text device_id msg_type seq)
device_report_lem version msg_type device_id seq rest n long d s =
    datagram_report_set (device_message version msg_type device_id seq rest) n long (omega arith)
      refl
    ∙ device_text_lem _ _ _ _ _ _ (be_value_8 device_id d) (omega arith) (be_value_4 seq s)

-- A whole message of a device, with whatever follows it, is printed with the device's number, the type
-- and the sequence number that were sent, whatever earlier datagrams have left in the buffer.
pub on_arrival-device_message :
    (st : UdpServer) (address : Text) (port version msg_type device_id seq : ℕ) (rest : Bytes)
    → device_id < 2 ^ 64
    → seq < 2 ^ 32
    → on_arrival st (datagram address port (device_message version msg_type device_id seq rest))
      ≡ done (
          arrived st address port
            (device_message version msg_type device_id seq rest)
            (device_text device_id msg_type seq))
unfolding on_arrival
on_arrival-device_message st address port version msg_type device_id seq rest d s =
    rw
      (device_report_lem version msg_type device_id seq
        (rest ++ drop (length (device_message version msg_type device_id seq rest)) st.buf)
        (length (device_message version msg_type device_id seq rest)) (omega arith) d s)
      refl

-- A message that is cut behind the device's number.
abbrev pub cut_message : ℕ → ℕ → ℕ → Bytes
cut_message version msg_type device_id =
    be_bytes 2 51966 ++ (version ∷ msg_type ∷ be_bytes 8 device_id)

-- A message that is cut behind the device's number, and comes after a whole one of whatever device, is
-- printed with the sequence number of that other message.
pub on_arrivals_stale :
    (st : UdpServer) (address address' : Text)
    (port port' version version' msg_type msg_type' device_id device_id' seq : ℕ) (rest : Bytes)
    → device_id < 2 ^ 64
    → device_id' < 2 ^ 64
    → seq < 2 ^ 32
    → on_arrivals st (
        datagram address port (device_message version msg_type device_id seq rest)
        ∷ datagram address' port' (cut_message version' msg_type' device_id')
        ∷ [])
      ≡ done (
          arrived
            (arrived st address port
              (device_message version msg_type device_id seq rest)
              (device_text device_id msg_type seq))
            address'
            port'
            (cut_message version' msg_type' device_id')
            (device_text device_id' msg_type' seq))
unfolding on_arrivals on_arrival
on_arrivals_stale st address address' port port' version version' msg_type msg_type' device_id
      device_id' seq rest d d' s =
    rw
      (
        on_arrival-device_message st address port version msg_type device_id seq rest d s,
        device_report_lem version' msg_type' device_id' seq
            (rest ++ drop (length (device_message version msg_type device_id seq rest)) st.buf) 12
            (omega arith) d' s,
      )
      refl

-- A datagram of ten to fifteen bytes with the magic number, while no more than fifteen bytes of the
-- buffer have ever been written: the server reads bytes that were never set.
pub on_arrival_unset :
    (st : UdpServer) (address : Text) (port : ℕ) (bytes : Bytes)
    → length st.buf < 16
    → 10 ≤ length bytes
    → length bytes < 16
    → word bytes 0 2 ≡ 51966
    → on_arrival st (datagram address port bytes) ≡ fails indeterminate
unfolding on_arrival
on_arrival_unset st address port [] few long short magic = absurd (omega (arith, long))
on_arrival_unset st address port (x ∷ []) few long short magic = absurd (omega (arith, long))
on_arrival_unset st address port (x ∷ y ∷ bytes) few long short magic =
    rw
      (datagram_report_unset (written (x ∷ y ∷ bytes) st.buf) (length (x ∷ y ∷ bytes)) long
        (omega (arith, size, long)) (omega (arith, size, few, short)) magic)
      refl
  where
    size :
        length (written (x ∷ y ∷ bytes) st.buf)
        ≡ length (x ∷ y ∷ bytes) + (length st.buf - length (x ∷ y ∷ bytes))
    size =
        length-append (x ∷ y ∷ bytes) (drop (length (x ∷ y ∷ bytes)) st.buf)
        ∙ ap (λ (n : ℕ). length (x ∷ y ∷ bytes) + n) (length-drop (length (x ∷ y ∷ bytes)) st.buf)
