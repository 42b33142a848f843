-- ===== src/Terminal/Attributes.antt =====
-- What the jobs tcgetattr and tcsetattr do.
use lwt_old.Base.{ℕ, ◌≡◌, refl, subst, some, get_elem?}
use lwt_old.Base.Int.{ℤ}
use lwt_old.Base.Outcome.{done, failed, ok, raised, fault, unix_error, pure}
use lwt_old.Jobs.{Mem, AsyncMethod}
use lwt_old.Jobs.Balance.{Ends, ended, life-finish, life-fault}
use lwt_old.Terminal.{
  Termios, Speeds, Kernel, terminal_io_descr, encode_terminal_status, decode_terminal_status,
  worker_tcgetattr, result_tcgetattr, tcgetattr_job, worker_tcsetattr, result_tcsetattr,
  tcsetattr_job, when_flag_table,
}
use lwt_old.Terminal.Merge.{has_bit, has_char, Merges}
use lwt_old.Terminal.RoundTrip.{SteadySpeeds, AllKnown, SameSpeeds, decode-encode_terminal_status}

module _ (speeds : Speeds) (kernel : Kernel) (method : AsyncMethod) (m : Mem) where
  open kernel use {tcgetattr, tcsetattr, new_tuple}

  abbrev stored : Termios → ℕ → ℤ
  stored t = encode_terminal_status speeds terminal_io_descr 0 t new_tuple

  -- The job tcgetattr returns the record for the settings that the kernel gives, or raises its
  -- error; its block and its mutex are gone.
  tcgetattr_job-Ends :
      (fd : ℕ)
      → Ends
          (tcgetattr fd)
          (λ t. ok (stored t) (ended method m))
          (λ e. raised (unix_error e "tcgetattr" "") (ended method m))
          (tcgetattr_job speeds kernel fd method m)
  unfolding tcgetattr_job worker_tcgetattr result_tcgetattr
  tcgetattr_job-Ends fd =
      life-finish "tcgetattr" "" stored (λ r. r) (λ job. pure (failed 0)) (λ j. pure (tcgetattr fd))
        method m refl refl

  worker-done :
      (fd flag : ℕ) (src : ℕ → ℤ) (t t' : Termios) (m' : Mem)
      → tcgetattr fd ≡ done t
      → decode_terminal_status speeds terminal_io_descr 0 src t ≡ done t'
      → worker_tcsetattr speeds kernel fd flag src m' ≡ ok (tcsetattr fd flag t') m'
  unfolding worker_tcsetattr
  worker-done fd flag src t t' m' e d = rw (e, worker_tcsetattr) (rw d refl)

  worker-fault :
      (fd flag : ℕ) (src : ℕ → ℤ) (t : Termios) (e : ℕ) (m' : Mem)
      → tcgetattr fd ≡ done t
      → decode_terminal_status speeds terminal_io_descr 0 src t ≡ failed e
      → worker_tcsetattr speeds kernel fd flag src m' ≡ fault
  unfolding worker_tcsetattr
  worker-fault fd flag src t e m' h d = rw (h, worker_tcsetattr) (rw d refl)

  tcsetattr_job-Ends :
      (fd when flag : ℕ) (src : ℕ → ℤ) (t t' : Termios)
      → get_elem? when_flag_table when ≡ some flag
      → tcgetattr fd ≡ done t
      → decode_terminal_status speeds terminal_io_descr 0 src t ≡ done t'
      → Ends
          (tcsetattr fd flag t')
          (λ u. ok u (ended method m))
          (λ e. raised (unix_error e "tcsetattr" "") (ended method m))
          (tcsetattr_job speeds kernel fd when src method m)
  unfolding tcsetattr_job result_tcsetattr
  tcsetattr_job-Ends fd when flag src t t' w e d = rw w (
      life-finish "tcsetattr" "" (λ u. u) (λ r. r) (λ job. pure (failed 0))
        (λ j. worker_tcsetattr speeds kernel fd flag src) method m refl
        (worker-done fd flag src t t' _ e d))

  -- If the terminal's settings can be read and the record has a field that cannot be decoded, the
  -- job tcsetattr does not raise the error: its worker does what is undefined.
  tcsetattr_job-fault :
      (fd when flag : ℕ) (src : ℕ → ℤ) (t : Termios) (e : ℕ)
      → get_elem? when_flag_table when ≡ some flag
      → tcgetattr fd ≡ done t
      → decode_terminal_status speeds terminal_io_descr 0 src t ≡ failed e
      → tcsetattr_job speeds kernel fd when src method m ≡ fault
  unfolding tcsetattr_job
  tcsetattr_job-fault fd when flag src t e w h d = rw w (
      life-fault (λ job. pure (failed 0)) (λ j. worker_tcsetattr speeds kernel fd flag src)
        (result_tcsetattr speeds kernel) method m refl (worker-fault fd flag src t e _ h d))

-- With the descriptor `fd` a terminal with the settings `t` is found; later, with the descriptor
-- `fd'`, one with the settings `u`.
module _ (speeds : Speeds) (earlier later : Kernel) (method : AsyncMethod) (m : Mem)
    (fd fd' when flag : ℕ) (t u : Termios) where
  -- For a terminal all of whose settings the table has, and another one, or the same one later,
  -- with other settings but the same speeds, in a library whose functions accept the speeds that
  -- they gave and change nothing then, and in which the speeds do not hang on the flags of the
  -- table and on the control characters: the job tcgetattr on the first returns a record, and
  -- the job tcsetattr on the second with that record hands the kernel settings in which each
  -- flag and each control character that stands in the table is that of the first terminal,
  -- every other is that of the second, and the speeds are the same; it returns or raises what
  -- the kernel answers. Blocks and mutexes of both jobs are gone.
  pub tcsetattr_job-tcgetattr_job :
      SteadySpeeds speeds terminal_io_descr
      → get_elem? when_flag_table when ≡ some flag
      → earlier.tcgetattr fd ≡ done t
      → later.tcgetattr fd' ≡ done u
      → AllKnown speeds t terminal_io_descr
      → SameSpeeds speeds t u
      → (src : ℕ → ℤ) × (tcgetattr_job speeds earlier fd method m ≡ ok src (ended method m))
        × (u' : Termios) × Merges (has_bit terminal_io_descr) (has_char terminal_io_descr) t u u'
        × SameSpeeds speeds t u'
        × Ends
            (later.tcsetattr fd' flag u')
            (λ u. ok u (ended method m))
            (λ e. raised (unix_error e "tcsetattr" "") (ended method m))
            (tcsetattr_job speeds later fd' when src method m)
  tcsetattr_job-tcgetattr_job laws w e e' known same =
      let src : ℕ → ℤ = stored speeds earlier method m t in
      let (u', d, merged, speeds_kept) =
        decode-encode_terminal_status speeds terminal_io_descr laws terminal_io_descr 0 t u
          earlier.new_tuple (λ f j h. h) known same in
      (
        src,
        subst
            (λ r.
              Ends r (λ t. ok (stored speeds earlier method m t) (ended method m))
                (λ e. raised (unix_error e "tcgetattr" "") (ended method m))
                (tcgetattr_job speeds earlier fd method m))
            e (tcgetattr_job-Ends speeds earlier method m fd),
        u',
        merged,
        speeds_kept,
        tcsetattr_job-Ends speeds later method m fd' when flag src u u' w e' d,
      )
