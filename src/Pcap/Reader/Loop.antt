-- ===== src/Pcap/Reader/Loop.antt =====
-- What `ForEachPacket` hands to its callback.
use gateway_forge.Common.{
  ℕ, suc, ◌+◌, ◌^◌, ◌<◌, ◌≤◌, ◌≡◌, refl, ap, ◌∙◌, true, Option, none, some, List, [], ◌∷◌, ◌++◌,
  arith, length,
}
use gateway_forge.Common.Words.{Bytes}
use gateway_forge.Common.Text.{Text}
use gateway_forge.Common.Outcome.{Outcome, done, fails, over_read, ◌>>=◌}
use gateway_forge.Pcap.Packet.{Packet, set_timestamp}
use gateway_forge.Pcap.Parser.{parse}
use gateway_forge.Pcap.Parser.Safety.{
  ip_end, parse-Returns, parse_cut, IsTransportFrame, transport_end,
}
use gateway_forge.Pcap.Reader.{
  PacketHeader, NextResult, success, end_of_file, closed_reader, open_reader, deliver, read_loop,
  timestamp_of,
}

-- Frames that were captured whole, with their IP headers inside.
abbrev pub AreComplete : List (PacketHeader × Bytes) → Type 0
AreComplete [] = Unit {0}
AreComplete ((header, bytes) ∷ frames) =
    (header.len ≡ length bytes)
    × (length bytes < 2 ^ 64)
    × (34 ≤ length bytes → ip_end bytes ≤ length bytes)
    × AreComplete frames

abbrev pub successes : List (PacketHeader × Bytes) → List NextResult
successes [] = []
successes ((header, bytes) ∷ frames) = success header bytes ∷ successes frames

-- The packets that the frames parse to, with their times, in order.
abbrev pub prepend : PacketHeader → Outcome (Option Packet) → List Packet → List Packet
prepend header (done (some p)) ps = set_timestamp p (timestamp_of header) ∷ ps
prepend header _ ps = ps

unfoldable pub packets_of : List (PacketHeader × Bytes) → List Packet
packets_of [] = []
packets_of ((header, bytes) ∷ frames) =
    prepend header (parse (some bytes) header.len) (packets_of frames)

module _ {S : Type 0} (callback : S → Packet → Outcome S) where
  -- The callback on one packet after the other.
  unfoldable pub call_all : S → List Packet → Outcome S
  call_all s [] = done s
  call_all s (p ∷ ps) = do s' ← callback s p; call_all s' ps

  -- The loop from the second frame on, and the plain description of it.
  abbrev Later : List (PacketHeader × Bytes) → List NextResult → ℕ → S → Type 0
  Later frames rest count s =
      read_loop callback (successes frames ++ (end_of_file ∷ rest)) count s
      ≡ (call_all s (packets_of frames) >>= λ s'. done (count + length frames, s'))

  read_loop_step :
      (header : PacketHeader) (frames : List (PacketHeader × Bytes)) (rest : List NextResult)
      (count : ℕ) (s : S) (r : Option Packet)
      → ((s' : S) → Later frames rest (count + 1) s')
      → (deliver callback s header r >>= λ s'.
          read_loop callback (successes frames ++ (end_of_file ∷ rest)) (count + 1) s')
        ≡ (call_all s (prepend header (done r) (packets_of frames)) >>= λ s'.
            done (count + suc (length frames), s'))
  unfolding call_all
  read_loop_step header frames rest count s r ih = step r
    where
      later :
          (s' : S)
          → read_loop callback (successes frames ++ (end_of_file ∷ rest)) (count + 1) s'
            ≡ (call_all s' (packets_of frames) >>= λ s''. done (count + suc (length frames), s''))
      later s' =
          ih s'
          ∙ ap (λ (n : ℕ). call_all s' (packets_of frames) >>= λ s''. done (n, s'')) (omega arith)

      run :
          (m : Outcome S)
          → (m >>= λ s'.
              read_loop callback (successes frames ++ (end_of_file ∷ rest)) (count + 1) s')
            ≡ ((m >>= λ s'. call_all s' (packets_of frames)) >>= λ s''.
                done (count + suc (length frames), s''))
      run (done s') = later s'
      run (fails x) = refl

      step :
          (r : Option Packet)
          → (deliver callback s header r >>= λ s'.
              read_loop callback (successes frames ++ (end_of_file ∷ rest)) (count + 1) s')
            ≡ (call_all s (prepend header (done r) (packets_of frames)) >>= λ s'.
                done (count + suc (length frames), s'))
      step none = later s
      step (some p) = run (callback s (set_timestamp p (timestamp_of header)))

  -- On a capture of complete frames that ends, the loop calls the callback once on each packet that a
  -- frame parses to, in order and with the frame's time, and counts all frames.
  pub read_loop_complete :
      (frames : List (PacketHeader × Bytes)) (rest : List NextResult) (count : ℕ) (s : S)
      → AreComplete frames
      → read_loop callback (successes frames ++ (end_of_file ∷ rest)) count s
        ≡ (call_all s (packets_of frames) >>= λ s'. done (count + length frames, s'))
  unfolding read_loop call_all packets_of
  read_loop_complete [] rest count s c = ap (λ (n : ℕ). done (n, s)) (omega arith)
  read_loop_complete ((header, bytes) ∷ frames) rest count s (e, small, inside, c) =
      let (r, parsed) =
        parse-Returns bytes header.len (omega arith) (omega arith)
          (λ h. omega (arith, inside (omega arith))) in
      rw parsed (
        read_loop_step header frames rest count s r
          (λ s'. read_loop_complete frames rest (count + 1) s' c))

  -- A frame that was cut at the snapshot length, so that fewer bytes were captured than the header's
  -- length says: if its headers were captured and it has a payload, the loop reads outside of the
  -- captured bytes, whatever was read before and follows.
  pub read_loop_cut :
      (header : PacketHeader) (bytes : Bytes) (rest : List NextResult) (count : ℕ) (s : S)
      → header.len < 2 ^ 64
      → IsTransportFrame bytes
      → ip_end bytes + 20 ≤ length bytes
      → length bytes < header.len
      → transport_end bytes < header.len
      → read_loop callback (success header bytes ∷ rest) count s ≡ fails over_read
  unfolding read_loop
  read_loop_cut header bytes rest count s small f headers cut payload =
      rw (parse_cut bytes header.len small f headers cut payload)

pub open_reader_lem :
    (pcap_open_offline : Text → Option (List NextResult)) (path : Text) (results : List NextResult)
    → pcap_open_offline path ≡ some results
    → open_reader pcap_open_offline closed_reader path
      ≡ (record { handle = some results; packet_count = 0 }, true)
unfolding open_reader
open_reader_lem pcap_open_offline path results h = rw (open_reader, h) refl
