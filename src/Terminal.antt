-- ===== src/Terminal.antt =====
-- src/unix/lwt_unix_unix.c, "Termios conversion" and the jobs tcgetattr and tcsetattr.
pub mod Lookup
pub mod Merge
pub mod RoundTrip
pub mod Attributes
mod Examples
use lwt_old.Base.{
  ℕ, zero, suc, ◌+◌, ◌-◌, ◌%◌, Bool, true, false, ◌&&◌, not, if◌then◌else◌, List, [], ◌∷◌, Option,
  none, some, get_elem?, update, ltb, ◌==◌, map, length,
}
use lwt_old.Base.Int.{ℤ, pos, negsuc}
use lwt_old.Base.Outcome.{Sys, done, failed, M, pure, undefined}
use lwt_old.Jobs.{Mem, AsyncMethod, life, finish}

-- A word of flags by its bits.
abbrev pub Word : Type 0
Word = ℕ → Bool

-- `struct termios`. The speeds are what the functions of the C library make of it.
pub record Termios : Type 0 where
  pub c_iflag : Word
  pub c_oflag : Word
  pub c_cflag : Word
  pub c_lflag : Word
  pub c_cc : ℕ → ℕ
  pub c_ispeed : ℕ
  pub c_ospeed : ℕ

-- `cfgetospeed`, `cfgetispeed`, `cfsetospeed` and `cfsetispeed` of the C library.
pub record Speeds : Type 0 where
  pub cfgetospeed : Termios → ℕ
  pub cfgetispeed : Termios → ℕ
  pub cfsetospeed : Termios → ℕ → Sys Termios
  pub cfsetispeed : Termios → ℕ → Sys Termios

pub data Field : Type 0 where
  iflags oflags cflags lflags : Field

pub data Direction : Type 0 where
  output input : Direction

-- An entry of `terminal_io_descr`. A mask of one bit is that bit. In `enum ofs bits values` the
-- mask is the list of its bits, lowest first, and each value gives these bits.
pub data Item : Type 0 where
  bool : Field → ℕ → Item
  enum : Field → ℕ → List ℕ → List (List Bool) → Item
  speed : Direction → Item
  char : ℕ → Item

pub choose_field : Field → Termios → Word
choose_field iflags t = t.c_iflag
choose_field oflags t = t.c_oflag
choose_field cflags t = t.c_cflag
choose_field lflags t = t.c_lflag

-- A write through the pointer that `choose_field` gives.
pub store_field : Field → Word → Termios → Termios
store_field iflags w t = record t { c_iflag = w }
store_field oflags w t = record t { c_oflag = w }
store_field cflags w t = record t { c_cflag = w }
store_field lflags w t = record t { c_lflag = w }

-- `speedtable`, a speed with its baud rate, with the numbers of Linux.
abbrev pub speedtable : List (ℕ × ℕ)
speedtable =
    (1, 50)
    ∷ (2, 75)
    ∷ (3, 110)
    ∷ (4, 134)
    ∷ (5, 150)
    ∷ (7, 300)
    ∷ (8, 600)
    ∷ (9, 1200)
    ∷ (10, 1800)
    ∷ (11, 2400)
    ∷ (12, 4800)
    ∷ (13, 9600)
    ∷ (14, 19200)
    ∷ (15, 38400)
    ∷ (4097, 57600)
    ∷ (4098, 115200)
    ∷ (4099, 230400)
    ∷ (0, 0)
    ∷ []

-- `terminal_io_descr`, in its order: the input modes, the output mode, the control modes from the
-- speeds to CLOCAL, the local modes and the control characters, with the numbers of Linux.
abbrev pub terminal_io_descr : List Item
terminal_io_descr =
    bool iflags 0
    ∷ bool iflags 1
    ∷ bool iflags 2
    ∷ bool iflags 3
    ∷ bool iflags 4
    ∷ bool iflags 5
    ∷ bool iflags 6
    ∷ bool iflags 7
    ∷ bool iflags 8
    ∷ bool iflags 10
    ∷ bool iflags 12
    ∷ bool oflags 0
    ∷ speed output
    ∷ speed input
    ∷ enum cflags 5 (4 ∷ 5 ∷ [])
        ((false ∷ false ∷ []) ∷ (true ∷ false ∷ []) ∷ (false ∷ true ∷ []) ∷ (true ∷ true ∷ []) ∷ [])
    ∷ enum cflags 1 (6 ∷ []) ((false ∷ []) ∷ (true ∷ []) ∷ [])
    ∷ bool cflags 7
    ∷ bool cflags 8
    ∷ bool cflags 9
    ∷ bool cflags 10
    ∷ bool cflags 11
    ∷ bool lflags 0
    ∷ bool lflags 1
    ∷ bool lflags 7
    ∷ bool lflags 3
    ∷ bool lflags 4
    ∷ bool lflags 5
    ∷ bool lflags 6
    ∷ char 0
    ∷ char 1
    ∷ char 2
    ∷ char 3
    ∷ char 4
    ∷ char 11
    ∷ char 6
    ∷ char 5
    ∷ char 8
    ∷ char 9
    ∷ []

pub same_bits : List Bool → List Bool → Bool
same_bits [] [] = true
same_bits (true ∷ xs) (true ∷ ys) = same_bits xs ys
same_bits (false ∷ xs) (false ∷ ys) = same_bits xs ys
same_bits _ _ = false

pub write_bits : List ℕ → List Bool → Word → Word
write_bits (k ∷ ks) (b ∷ bs) w = write_bits ks bs (update w k b)
write_bits _ _ w = w

-- The place of the value that the bits have, from `i` on.
pub find_value : List Bool → List (List Bool) → ℕ → Option ℕ
unfolding same_bits
find_value bits [] i = none
find_value bits (v ∷ values) i = if same_bits bits v then some i else find_value bits values (suc i)

pub baud_of : ℕ → List (ℕ × ℕ) → Option ℕ
baud_of s [] = none
baud_of s ((x, baud) ∷ table) = if s == x then some baud else baud_of s table

pub speed_of : ℕ → List (ℕ × ℕ) → Option ℕ
speed_of baud [] = none
speed_of baud ((x, b) ∷ table) = if baud == b then some x else speed_of baud table

-- `Int_val(*src) - ofs`, if it is at least 0 and below `num`.
pub place : ℤ → ℕ → ℕ → Option ℕ
place (pos n) ofs num =
    if ltb n ofs then none else if ltb (n - ofs) num then some (n - ofs) else none
place (negsuc n) ofs num = none

-- The byte that is stored for an integer.
pub low_byte : ℤ → ℕ
low_byte (pos n) = n % 256
low_byte (negsuc n) = 255 - n % 256

-- `unix_error(EINVAL, "tcsetattr", Nothing)` and `uerror("tcsetattr", Nothing)` are `failed`.
pub store_value : Field → List ℕ → List (List Bool) → Option ℕ → Termios → Sys Termios
unfolding choose_field store_field write_bits
store_value f bits values none t = failed 22
store_value f bits values (some i) t = elim (get_elem? values i) [
  | none ↦ failed 22
  | some v ↦ done (store_field f (write_bits bits v (choose_field f t)) t)
]

module _ (speeds : Speeds) where
  open speeds use {cfgetospeed, cfgetispeed, cfsetospeed, cfsetispeed}

  pub get_speed : Direction → Termios → ℕ
  get_speed output t = cfgetospeed t
  get_speed input t = cfgetispeed t

  pub set_speed : Direction → Termios → ℕ → Sys Termios
  set_speed output t s = cfsetospeed t s
  set_speed input t s = cfsetispeed t s

  -- What `encode_terminal_status` stores for an entry of the table, if it stores something.
  pub encode_item : Item → Termios → Option ℤ
  unfolding choose_field find_value get_speed baud_of
  encode_item (bool f k) t = some (pos (if choose_field f t k then 1 else 0))
  encode_item (enum f ofs bits values) t =
      elim (find_value (map (choose_field f t) bits) values 0) [
        | none ↦ none
        | some i ↦ some (pos (i + ofs))
      ]
  encode_item (speed d) t = elim (baud_of (get_speed d t) speedtable) [
    | none ↦ some (pos 9600)
    | some baud ↦ some (pos baud)
  ]
  encode_item (char which) t = some (pos (t.c_cc which))

  -- The entries of the record `dst`, from `i` on.
  pub encode_terminal_status : List Item → ℕ → Termios → (ℕ → ℤ) → ℕ → ℤ
  unfolding encode_item
  encode_terminal_status [] i t dst = dst
  encode_terminal_status (item ∷ items) i t dst =
      encode_terminal_status items (suc i) t
        (elim (encode_item item t) [ none ↦ dst | some v ↦ update dst i v ])

  pub decode_speed : Direction → ℤ → Termios → Sys Termios
  unfolding set_speed speed_of
  decode_speed d (negsuc n) t = failed 22
  decode_speed d (pos baud) t = elim (speed_of baud speedtable) [
    | none ↦ failed 22
    | some s ↦ set_speed d t s
  ]

  pub decode_item : Item → ℤ → Termios → Sys Termios
  unfolding choose_field store_field place store_value decode_speed low_byte
  decode_item (bool f k) (pos zero) t = done (store_field f (update (choose_field f t) k false) t)
  decode_item (bool f k) v t = done (store_field f (update (choose_field f t) k true) t)
  decode_item (enum f ofs bits values) v t =
      store_value f bits values (place v ofs (length values)) t
  decode_item (speed d) v t = decode_speed d v t
  decode_item (char which) v t = done (record t { c_cc = update t.c_cc which (low_byte v) })

  pub decode_terminal_status : List Item → ℕ → (ℕ → ℤ) → Termios → Sys Termios
  unfolding decode_item
  decode_terminal_status [] i src t = done t
  decode_terminal_status (item ∷ items) i src t = elim (decode_item item (src i) t) [
    | failed e ↦ failed e
    | done t' ↦ decode_terminal_status items (suc i) src t'
  ]

-- The calls of the kernel, and what `caml_alloc_tuple` puts into a new record.
pub record Kernel : Type 0 where
  pub tcgetattr : ℕ → Sys Termios
  pub tcsetattr : ℕ → ℕ → Termios → Sys (Unit {0})
  pub new_tuple : ℕ → ℤ

pub when_flag_table : List ℕ
when_flag_table = 0 ∷ 1 ∷ 2 ∷ []

module _ (speeds : Speeds) (kernel : Kernel) where
  open kernel use {tcgetattr, tcsetattr, new_tuple}

  pub worker_tcgetattr : ℕ → M Mem (Sys Termios)
  worker_tcgetattr fd = pure (tcgetattr fd)

  pub result_tcgetattr : ℕ → Sys Termios → M Mem (ℕ → ℤ)
  unfolding encode_terminal_status
  result_tcgetattr job outcome =
      finish "tcgetattr" "" (λ t. encode_terminal_status speeds terminal_io_descr 0 t new_tuple) job
        outcome

  pub tcgetattr_job : ℕ → AsyncMethod → M Mem (ℕ → ℤ)
  unfolding worker_tcgetattr result_tcgetattr
  tcgetattr_job fd = life (λ job. pure (failed 0)) (λ j. worker_tcgetattr fd) result_tcgetattr

  -- `decode_terminal_status` raises in the worker, which does not hold the lock of the OCaml
  -- runtime: this is undefined.
  pub worker_tcsetattr : ℕ → ℕ → (ℕ → ℤ) → M Mem (Sys (Unit {0}))
  unfolding decode_terminal_status
  worker_tcsetattr fd when src = elim (tcgetattr fd) [
    | failed e ↦ pure (failed e)
    | done t ↦ elim (decode_terminal_status speeds terminal_io_descr 0 src t) [
      | failed e ↦ undefined
      | done t' ↦ pure (tcsetattr fd when t')
    ]
  ]

  pub result_tcsetattr : ℕ → Sys (Unit {0}) → M Mem (Unit {0})
  result_tcsetattr job outcome = finish "tcsetattr" "" (λ u. u) job outcome

  -- `when` is an index into `when_flag_table`.
  pub tcsetattr_job : ℕ → ℕ → (ℕ → ℤ) → AsyncMethod → M Mem (Unit {0})
  unfolding worker_tcsetattr result_tcsetattr when_flag_table
  tcsetattr_job fd when src method = elim (get_elem? when_flag_table when) [
    | none ↦ undefined
    | some flag ↦
        life (λ job. pure (failed 0)) (λ j. worker_tcsetattr fd flag src) result_tcsetattr method
  ]
