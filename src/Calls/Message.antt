-- ===== src/Calls/Message.antt =====
-- src/unix/lwt_unix_unix.c, `lwt_unix_recv_msg` and `lwt_unix_send_msg` and their variants on
-- bigarrays, where HAVE_FD_PASSING is defined: the I/O vectors, the bytes that are stored through
-- them, and the file descriptors that a message carries.
pub mod Scatter
pub mod Rights
use lwt_old.Base.{
  ℕ, zero, suc, ◌&&◌, ◌==◌, ltb, if◌then◌else◌, List, [], ◌∷◌, map, Option, none, some, get_or,
  length, take, drop,
}
use lwt_old.Base.Outcome.{Sys, done, failed, M, ◌>>=◌, ◌>>◌, pure, raise, undefined, unix_error}
use lwt_old.Jobs.{Mem, memcpy_string, store_bigarray}

-- A buffer with an offset and a length.
pub record IoVec : Type 0 where
  pub buffer : ℕ
  pub offset : ℕ
  pub len : ℕ

-- The numbers of `SOL_SOCKET` and `SCM_RIGHTS`.
pub record Cmsg : Type 0 where
  pub level : ℕ
  pub kind : ℕ
  pub fds : List ℕ

abbrev pub sol_socket : ℕ
sol_socket = 1

abbrev pub scm_rights : ℕ
scm_rights = 1

-- A list is stored into an array of so many cells, which hold `initial`. A list that is longer is
-- written past the end, which is undefined.
pub store {ℓ} : {A : Type ℓ} → A → ℕ → List A → Option (List A)
store initial zero [] = some []
store initial zero (x ∷ xs) = none
store initial (suc n) [] = elim (store initial n []) [
  | none ↦ none
  | some cells ↦ some (initial ∷ cells)
]
store initial (suc n) (x ∷ xs) = elim (store initial n xs) [
  | none ↦ none
  | some cells ↦ some (x ∷ cells)
]

-- Where a buffer of that number is: among the strings or among the bigarrays.
pub data Base : Type 0 where
  in_string in_bigarray : ℕ → Base

-- `struct iovec`
pub record Vector : Type 0 where
  pub base : Base
  pub offset : ℕ
  pub len : ℕ

-- The cells of the vectors, which start with what was on the stack, `none` here; those of the
-- control message are set to 0.
abbrev pub cells_of : (ℕ → Base) → List IoVec → List (Option Vector)
cells_of kind iovs =
    map (λ x. some (record { base = kind x.buffer; offset = x.offset; len = x.len })) iovs

pub store_at : Vector → List ℕ → M Mem (Unit {0})
store_at v bytes = elim v.base [
  | in_string s ↦ memcpy_string s v.offset bytes
  | in_bigarray b ↦ store_bigarray b v.offset bytes
]

-- What `recvmsg` stores through the vectors, one behind the other. Where it stores more than they
-- have room for, or through a vector that was not set, this is undefined.
pub scatter : List (Option Vector) → List ℕ → M Mem (Unit {0})
unfolding store_at
scatter [] [] = pure tt
scatter [] (b ∷ bytes) = undefined
scatter (none ∷ cells) [] = pure tt
scatter (none ∷ cells) (b ∷ bytes) = undefined
scatter (some v ∷ cells) bytes = do store_at v (take v.len bytes); scatter cells (drop v.len bytes)

pub store_iovs : ℕ → List IoVec → Option (List (Option Vector))
unfolding store
store_iovs n iovs = store none n (cells_of in_string iovs)

pub bytes_store_iovs : ℕ → List IoVec → Option (List (Option Vector))
unfolding store
bytes_store_iovs n iovs = store none n (cells_of in_bigarray iovs)

pub control : ℕ → List ℕ → Option (List Cmsg)
unfolding store
control zero fds = some []
control (suc n) fds = elim (store 0 (suc n) fds) [
  | none ↦ none
  | some cells ↦ some (record { level = sol_socket; kind = scm_rights; fds = cells } ∷ [])
]

-- `for (i = nfds - 1; i >= 0; i--)`
pub fds_loop : ℕ → List ℕ → List ℕ → List ℕ
fds_loop zero fds list = list
fds_loop (suc i) fds list = fds_loop i fds (get_or fds i 0 ∷ list)

-- The loop over the control messages, up to the first that carries descriptors.
pub received_fds : List Cmsg → List ℕ
unfolding fds_loop
received_fds [] = []
received_fds (cm ∷ msgs) =
    let rest = received_fds msgs in
    if cm.level == sol_socket && cm.kind == scm_rights
    then fds_loop (length cm.fds) cm.fds []
    else rest

-- `recvmsg` gives the bytes that it stores and the control messages.
pub record Kernel : Type 0 where
  pub recvmsg : ℕ → List (Option Vector) → Sys (List ℕ × List Cmsg)
  pub sendmsg : ℕ → List (Option Vector) → List Cmsg → Sys ℕ

module _ (kernel : Kernel) where
  open kernel use {recvmsg, sendmsg}

  pub wrapper_recv_msg : ℕ → List (Option Vector) → M Mem (ℕ × List ℕ)
  unfolding scatter received_fds
  wrapper_recv_msg fd iovs = elim (recvmsg fd iovs) [
    | failed e ↦ raise (unix_error e "recv_msg" "")
    | done (bytes, msgs) ↦ (do scatter iovs bytes; pure (length bytes, received_fds msgs))
  ]

  pub recv_msg : ℕ → ℕ → List IoVec → M Mem (ℕ × List ℕ)
  unfolding store_iovs wrapper_recv_msg
  recv_msg fd n_iovs iovs = elim (store_iovs n_iovs iovs) [
    | none ↦ undefined
    | some cells ↦ wrapper_recv_msg fd cells
  ]

  pub bytes_recv_msg : ℕ → ℕ → List IoVec → M Mem (ℕ × List ℕ)
  unfolding bytes_store_iovs wrapper_recv_msg
  bytes_recv_msg fd n_iovs iovs = elim (bytes_store_iovs n_iovs iovs) [
    | none ↦ undefined
    | some cells ↦ wrapper_recv_msg fd cells
  ]

  pub wrapper_send_msg : ℕ → List (Option Vector) → ℕ → List ℕ → M Mem ℕ
  unfolding control
  wrapper_send_msg fd iovs n_fds fds = elim (control n_fds fds) [
    | none ↦ undefined
    | some msgs ↦ elim (sendmsg fd iovs msgs) [
      | failed e ↦ raise (unix_error e "send_msg" "")
      | done ret ↦ pure ret
    ]
  ]

  pub send_msg : ℕ → ℕ → List IoVec → ℕ → List ℕ → M Mem ℕ
  unfolding store_iovs wrapper_send_msg
  send_msg fd n_iovs iovs n_fds fds = elim (store_iovs n_iovs iovs) [
    | none ↦ undefined
    | some cells ↦ wrapper_send_msg fd cells n_fds fds
  ]

  pub bytes_send_msg : ℕ → ℕ → List IoVec → ℕ → List ℕ → M Mem ℕ
  unfolding bytes_store_iovs wrapper_send_msg
  bytes_send_msg fd n_iovs iovs n_fds fds = elim (bytes_store_iovs n_iovs iovs) [
    | none ↦ undefined
    | some cells ↦ wrapper_send_msg fd cells n_fds fds
  ]
