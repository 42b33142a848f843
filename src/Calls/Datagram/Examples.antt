-- ===== src/Calls/Datagram/Examples.antt =====
-- The theorem on datagrams at a datagram that is longer than its receiver asks for.
use lwt_old.Base.{ℕ, ◌≡◌, refl, List, [], ◌∷◌, length, update, arith}
use lwt_old.Base.Outcome.{done, ok}
use lwt_old.Jobs.{Mem, synchronous}
use lwt_old.Calls.Buffers.Laws.{Stored}
use lwt_old.Calls.Datagram.{Kernel, Runtime, lwt_recvfrom, bytes_recvfrom, lwt_sendto, bytes_sendto}
use lwt_old.Calls.Datagram.Delivery.{part, recvfrom-sendto}

abbrev memory : Mem
memory = record {
  live = [];
  fresh = 3;
  mutexes = [];
  async_method = λ job. synchronous;
  roots = [];
  strings = λ s. 1 ∷ 2 ∷ 3 ∷ 4 ∷ [];
  bigarrays = λ b. 9 ∷ 8 ∷ 7 ∷ 6 ∷ [];
}

-- An address is its bytes.
abbrev runtime : Runtime
runtime = record { Sockaddr = List ℕ; alloc_sockaddr = λ a. done a; get_sockaddr = λ a. done a }

abbrev giving : List ℕ → Kernel
giving bytes = record {
  recvfrom = λ fd len flags. done (bytes, 127 ∷ []);
  sendto = λ fd bytes flags addr. done (length bytes);
}

recvfrom-sendto_example :
    (lwt_sendto runtime (giving []) 5 0 0 3 0 (10 ∷ []) memory ≡ ok 3 memory)
    × ((text : List ℕ) × Stored (memory.bigarrays 1) 1 (part (memory.strings 0) 0 3 2) text
        × (bytes_recvfrom runtime (giving (1 ∷ 2 ∷ [])) 6 1 1 2 0 memory
            ≡ ok
                (length (part (memory.strings 0) 0 3 2), 127 ∷ [])
                (record memory { bigarrays = update memory.bigarrays 1 text })))
    × (bytes_sendto runtime (giving []) 5 0 0 3 0 (10 ∷ []) memory ≡ ok 3 memory)
    × ((text : List ℕ) × Stored (memory.strings 1) 1 (part (memory.bigarrays 0) 0 3 2) text
        × (lwt_recvfrom runtime (giving (9 ∷ 8 ∷ [])) 6 1 1 2 0 memory
            ≡ ok
                (length (part (memory.bigarrays 0) 0 3 2), 127 ∷ [])
                (record memory { strings = update memory.strings 1 text })))
recvfrom-sendto_example =
    recvfrom-sendto runtime (giving []) (giving (1 ∷ 2 ∷ [])) (giving (9 ∷ 8 ∷ [])) memory memory 5
      0 0 3 0 6 1 1 2 0 {d = 10 ∷ []} {src = 127 ∷ []} {dest = 10 ∷ []} {from = 127 ∷ []}
      (omega arith) (omega arith) (omega arith) (omega arith) refl refl refl refl refl refl
