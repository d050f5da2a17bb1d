-- ===== src/Wm/Tests.antt =====
-- Messages of a client to the server, by the code of kernel/src/fs/dev/dev_wm.c.
use saynaa_os.Prelude.{
  ℕ, ◌==◌, ◌≡◌, refl, arith, List, [], ◌∷◌, ◌++◌, none, some, true, if◌then◌else◌, get_or,
}
use saynaa_os.Ring.{Ring}
use saynaa_os.Wm.{Wm, empty_queue, drop_loop, put_message, get_message, dev_wm_write, hdr_bytes}
use saynaa_os.Wm.Queue.{drop_loop_lem, Message, IsMessage, Holds, make_room}
use saynaa_os.Wm.Messages.{take_message, put_message_lem, get_message_lem}
use saynaa_os.Wm.Access.{Reaches, dev_wm_write-client}

abbrev hello : Message
hello = record { src = 7; type = 1; payload = 104 ∷ 105 ∷ [] }

hello-IsMessage : IsMessage hello
hello-IsMessage = record { src = omega arith; type = omega arith; payload = omega arith }

-- The message wraps around the end of the array.
abbrev near_end : Ring ℕ
near_end = record { buf = λ _. 0; r = 8190; w = 8190 }

near_end-Holds : Holds near_end []
unfolding saynaa_os.Ring.Contents.contents saynaa_os.Ring.used
near_end-Holds = record { valid = (omega arith, omega arith); is = refl; all = tt }

put_message_lem_example :
    (q : Ring ℕ) × (put_message near_end 7 1 (104 ∷ 105 ∷ []) ≡ some (true, q))
    × Holds q (make_room 14 [] ++ (hello ∷ []))
put_message_lem_example = put_message_lem near_end [] hello near_end-Holds hello-IsMessage

abbrev one_message : Ring ℕ
one_message = record {
  buf = λ i. get_or (7 ∷ 0 ∷ 0 ∷ 0 ∷ 1 ∷ 0 ∷ 0 ∷ 0 ∷ 2 ∷ 0 ∷ 0 ∷ 0 ∷ 104 ∷ 105 ∷ []) i 0;
  r = 0;
  w = 14;
}

one_message-Holds : Holds one_message (hello ∷ [])
unfolding hdr_bytes saynaa_os.Ring.Contents.contents saynaa_os.Ring.used
one_message-Holds = record {
  valid = (omega arith, omega arith);
  is = refl;
  all = (hello-IsMessage, tt);
}

get_message_lem_example :
    ((get_message one_message 64).0 ≡ (take_message (hello ∷ []) 64).0)
    × Holds (get_message one_message 64).1 (take_message (hello ∷ []) 64).1
get_message_lem_example = get_message_lem one_message (hello ∷ []) 64 one_message-Holds

-- Process 1 is the server and 2 a client.
abbrev two_processes : Wm
two_processes = record {
  eps = λ i. record { pid = if i == 0 then 1 else if i == 1 then 2 else 0; q = empty_queue };
  server_pid = 1;
}

-- Two bytes to the server.
abbrev request : List ℕ
request = 0 ∷ 0 ∷ 0 ∷ 0 ∷ 1 ∷ 0 ∷ 0 ∷ 0 ∷ 2 ∷ 0 ∷ 0 ∷ 0 ∷ 104 ∷ 105 ∷ []

abbrev after_request : Wm
after_request = elim (dev_wm_write two_processes (some 3) (some request)) [
  | none ↦ two_processes
  | some r ↦ r.1
]

request_sent : dev_wm_write two_processes (some 3) (some request) ≡ some (some 14, after_request)
unfolding dev_wm_write saynaa_os.Ring.used
request_sent = refl

dev_wm_write-client_example : Reaches two_processes 1 after_request
dev_wm_write-client_example =
    dev_wm_write-client two_processes 3 (some request) (some 14) after_request (ground arith)
      (ground arith) request_sent

drop_loop_lem_example :
    (q : Ring ℕ) × (drop_loop 2 one_message 8180 ≡ some q) × Holds q (make_room 8180 (hello ∷ []))
drop_loop_lem_example =
    drop_loop_lem (hello ∷ []) 2 one_message 8180 one_message-Holds (omega arith)
