-- ===== src/Examples/Transfers.antt =====
-- The examples of UFT/UFTSession.hpp.
use uft.ByteBuffer.{write_bytes}
use uft.ByteBuffer.Fields.{write_bytes-Writes}
use uft.ByteBuffer.Laws.{unread}
use uft.Session.Packet.{read_packet, send_op}
use uft.Socket.Delivery.{at, SentAll, GotAll}
use uft.Prelude.{append-nil, sym, ok, ℕ, ◌≡◌, ◌++◌, refl, arith, true, false, List, [], ◌∷◌}
use uft.World.{World}
use uft.Files.{Files, Stream, at_start}
use uft.Session.{FileInfo, c_string, transmit_file_chunk}
use uft.Session.Chunk.{
  checked, calculate_file_chunk_hash, fnv, receive_file_chunk, send_file_chunk,
  receive_file_chunk_hash,
}
use uft.Session.Wire.{packet, send_op_lem}
use uft.Session.Reading.{read_packet_lem}
use uft.Session.Exchange.{Talk, chunk_message, hash_message, result_message, hash_of}
use uft.Session.ChunkExchange.{send_file_chunk_lem, receive_file_chunk_lem, after, written}
use uft.Session.HashExchange.{receive_file_chunk_hash_lem}
use uft.Session.Plan.{tells_apart, whole_out, whole_in, merged, beyond}
use uft.Session.Sending.{Runs}
use uft.Session.SendFile.{Offered, send_file_chunks-compared}
use uft.Session.Receiving.{Fills}
use uft.Session.ReceiveFile.{compared_words, compared_answers, receive_file_chunks-compared}
use uft.Session.Synchronize.{Ready, synchronize_compared, synchronize_whole}
use uft.Session.Sender.{send_file_chunks}
use uft.Session.Receiver.{receive_file_chunks}
use uft.Examples.{Net, env, link, env-Healthy, connected-IsUp, disk, session}

-- "hello world!" against "hexlo wo": a chunk that differs, one that does not, and one more.
abbrev pub content : List ℕ
content = 104 ∷ 101 ∷ 108 ∷ 108 ∷ 111 ∷ 32 ∷ 119 ∷ 111 ∷ 114 ∷ 108 ∷ 100 ∷ 33 ∷ []

abbrev pub old : List ℕ
old = 104 ∷ 101 ∷ 120 ∷ 108 ∷ 111 ∷ 32 ∷ 119 ∷ 111 ∷ []

abbrev mine : FileInfo
mine = record { path = 97 ∷ 0 ∷ []; size = 12; timestamp = 5 }

abbrev theirs : FileInfo
theirs = record { path = 98 ∷ 0 ∷ []; size = 8; timestamp = 4 }

abbrev nothing : FileInfo
nothing = record { path = 98 ∷ 0 ∷ []; size = 0; timestamp = 0 }

abbrev sender : List ℕ → World Net
sender words = session words (disk content [])

abbrev receiver : List ℕ → World Net
receiver words = session words (disk [] old)

mine-Offered : (words : List ℕ) → Offered env link (sender words) mine content
unfolding c_string
mine-Offered words = record {
  there = refl;
  opens = refl;
  size_eq = refl;
  enough = omega arith;
  small = omega arith;
}

hearing : (words : List ℕ) (fs : Files) → Ready env link words [] (session words fs)
hearing words fs = record {
  is_up = connected-IsUp;
  healthy = env-Healthy;
  heard = sym (append-nil words);
  enough = omega arith;
}

abbrev words : List ℕ
words = compared_words env link content old

abbrev answers : List ℕ
answers = compared_answers env link content old

abbrev all_words : List ℕ
all_words = whole_out env env.fuel 0 content

abbrev all_answers : List ℕ
all_answers = whole_in env env.fuel content

apart : tells_apart env env.fuel content old ≡ true
unfolding tells_apart calculate_file_chunk_hash fnv
apart = refl

synchronize_compared_example :
    Runs env link (send_file_chunks env mine theirs true) tt words answers (sender answers)
    × Fills env link
        (receive_file_chunks env theirs mine false)
        tt
        (c_string theirs.path)
        content
        answers
        words
        (receiver words)
unfolding c_string
synchronize_compared_example =
    synchronize_compared env link mine theirs true false content old [] [] (sender answers)
      (receiver words) (hearing answers (disk content [])) (hearing words (disk [] old))
      (mine-Offered answers) refl refl refl (omega arith) refl apart

synchronize_whole_example :
    Runs env link
      (send_file_chunks env mine nothing true)
      tt
      all_words
      all_answers
      (sender all_answers)
    × Fills env link
        (receive_file_chunks env nothing mine false)
        tt
        (c_string nothing.path)
        content
        all_answers
        all_words
        (receiver all_words)
synchronize_whole_example =
    synchronize_whole env link mine nothing true false content [] [] (sender all_answers)
      (receiver all_words) (hearing all_answers (disk content [])) (hearing all_words (disk [] old))
      (mine-Offered all_answers) refl refl

receive_file_chunks-compared_example :
    Fills env link
      (receive_file_chunks env theirs mine true)
      tt
      (c_string theirs.path)
      (merged env env.fuel content old ++ beyond env env.fuel content old)
      answers
      words
      (receiver words)
unfolding c_string
receive_file_chunks-compared_example =
    receive_file_chunks-compared env link theirs mine true content old [] (receiver words)
      connected-IsUp env-Healthy refl refl refl refl (omega arith) (omega arith) (omega arith) refl
      (sym (append-nil words)) (omega arith)

send_file_chunks-compared_example :
    Runs env link (send_file_chunks env mine theirs false) tt words answers (sender answers)
send_file_chunks-compared_example =
    send_file_chunks-compared env link mine theirs false content old [] (sender answers)
      connected-IsUp env-Healthy (mine-Offered answers) refl refl (omega arith)
      (sym (append-nil answers)) (omega arith)

-- One chunk at the offset 8 of the receiver's file.
abbrev last_chunk : List ℕ
last_chunk = 114 ∷ 108 ∷ 100 ∷ 33 ∷ []

abbrev vector : List ℕ
vector = 0 ∷ 0 ∷ 0 ∷ 0 ∷ []

abbrev b_stream : Stream
b_stream = at_start (98 ∷ [])

abbrev chunk_words : List ℕ
chunk_words = chunk_message env 8 last_chunk

receive_file_chunk_example :
    (v : Net) × (receive_file_chunk env checked vector b_stream (receiver chunk_words)
      ≡ ok
          (record {
            offset = 8;
            size = 4;
            buffer = last_chunk;
            stream = after env link b_stream 8 last_chunk;
          })
          (record (receiver chunk_words) {
            net = v;
            files = written env link (receiver chunk_words) b_stream 8 last_chunk;
          }))
    × Talk env link (result_message env true) chunk_words (receiver chunk_words).net v
receive_file_chunk_example =
    receive_file_chunk_lem env link checked last_chunk [] vector 8 b_stream (receiver chunk_words)
      connected-IsUp env-Healthy (omega arith) refl (omega arith) (λ e. refl)
      (sym (append-nil chunk_words)) (omega arith)

send_file_chunk_example :
    (v : Net) × (send_file_chunk env last_chunk 8 4 (sender (result_message env true))
      ≡ ok tt (at env link (sender (result_message env true)) v))
    × Talk env link chunk_words (result_message env true) (sender (result_message env true)).net v
send_file_chunk_example =
    send_file_chunk_lem env link last_chunk [] 8 (sender (result_message env true)) connected-IsUp
      env-Healthy (omega arith) (sym (append-nil (result_message env true))) (omega arith)

abbrev hash_words : List ℕ
hash_words = hash_message env 8 last_chunk

receive_file_chunk_hash_example :
    (v : Net) × (receive_file_chunk_hash env (receiver hash_words)
      ≡ ok (hash_of last_chunk, 8, 4) (at env link (receiver hash_words) v))
    × Talk env link [] hash_words (receiver hash_words).net v
receive_file_chunk_hash_example =
    receive_file_chunk_hash_lem env link last_chunk [] 8 (receiver hash_words) connected-IsUp
      (omega arith) (omega arith) (omega arith) (sym (append-nil hash_words)) (omega arith)

-- A packet of two bytes with another byte behind it.
abbrev two : List ℕ
two = 9 ∷ 8 ∷ []

abbrev two_words : List ℕ
two_words = packet transmit_file_chunk two ++ (1 ∷ [])

read_packet_example :
    (v : Net) × (read_packet env transmit_file_chunk (receiver two_words)
      ≡ ok (unread [] two 2) (at env link (receiver two_words) v))
    × GotAll env link (packet transmit_file_chunk two) (receiver two_words).net v
read_packet_example =
    read_packet_lem env link transmit_file_chunk two (1 ∷ []) (receiver two_words) connected-IsUp
      refl (omega arith) (omega arith)

send_op_example :
    (v : Net) × (send_op env transmit_file_chunk 2 (write_bytes two ∷ []) (sender [])
      ≡ ok tt (at env link (sender []) v))
    × SentAll env link (packet transmit_file_chunk two) (sender []).net v
send_op_example =
    send_op_lem env link transmit_file_chunk 2 (write_bytes two ∷ []) (two ∷ []) (sender [])
      (write_bytes-Writes two, tt) refl connected-IsUp (omega arith) (omega arith)
