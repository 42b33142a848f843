-- ===== src/Terminal/Examples.antt =====
-- The jobs on terminals at a terminal of 9600 baud with eight bits for a character.
use lwt_old.Base.{
  ℕ, get_elem?, ◌≡◌, refl, Bool, true, false, [], some, arith, if◌then◌else◌, ◌==◌, length,
}
use lwt_old.Base.Int.{ℤ, pos}
use lwt_old.Base.Outcome.{done, failed, ok, raised, unix_error}
use lwt_old.Jobs.{Mem, synchronous, detach}
use lwt_old.Jobs.Balance.{ended}
use lwt_old.Terminal.{
  Termios, Speeds, Kernel, Field, iflags, oflags, cflags, lflags, Direction, output, input,
  terminal_io_descr, find_value, choose_field, same_bits, baud_of, get_speed,
  decode_terminal_status, decode_item, decode_speed, speed_of, store_field, tcgetattr_job,
  tcsetattr_job, when_flag_table,
}
use lwt_old.Terminal.Merge.{has_bit, has_char, Merges}
use lwt_old.Terminal.RoundTrip.{SteadySpeeds, AllKnown, SameSpeeds}
use lwt_old.Terminal.Attributes.{tcsetattr_job-tcgetattr_job}

abbrev memory : Mem
memory = record {
  live = [];
  fresh = 3;
  mutexes = [];
  async_method = λ job. synchronous;
  roots = [];
  strings = λ s. [];
  bigarrays = λ b. [];
}

abbrev speeds : Speeds
speeds = record {
  cfgetospeed = λ t. t.c_ospeed;
  cfgetispeed = λ t. t.c_ispeed;
  cfsetospeed = λ t s. done (record t { c_ospeed = s });
  cfsetispeed = λ t s. done (record t { c_ispeed = s });
}

flags_apart :
    (d : Direction) (t : Termios) (f : Field) (w : ℕ → Bool)
    → get_speed speeds d (store_field f w t) ≡ get_speed speeds d t
unfolding get_speed store_field
flags_apart output t iflags w = refl
flags_apart output t oflags w = refl
flags_apart output t cflags w = refl
flags_apart output t lflags w = refl
flags_apart input t iflags w = refl
flags_apart input t oflags w = refl
flags_apart input t cflags w = refl
flags_apart input t lflags w = refl

chars_apart :
    (d : Direction) (t : Termios) (c : ℕ → ℕ)
    → get_speed speeds d (record t { c_cc = c }) ≡ get_speed speeds d t
unfolding get_speed
chars_apart output t c = refl
chars_apart input t c = refl

speeds_steady : SteadySpeeds speeds terminal_io_descr
speeds_steady = record {
  same_output = λ t. refl;
  same_input = λ t. refl;
  flags_apart = λ d t f w h. flags_apart d t f w;
  chars_apart = chars_apart;
}

abbrev terminal : Termios
terminal = record {
  c_iflag = λ k. false;
  c_oflag = λ k. k == 0;
  c_cflag = λ k. if k == 4 then true else k == 5;
  c_lflag = λ k. false;
  c_cc = λ k. 3;
  c_ispeed = 13;
  c_ospeed = 13;
}

-- A terminal with the same speeds, all other flags and other characters.
abbrev other : Termios
other = record {
  c_iflag = λ k. true;
  c_oflag = λ k. false;
  c_cflag = λ k. false;
  c_lflag = λ k. true;
  c_cc = λ k. 7;
  c_ispeed = 13;
  c_ospeed = 13;
}

abbrev kernel_of : Termios → Kernel
kernel_of t = record {
  tcgetattr = λ fd. done t;
  tcsetattr = λ fd flag t. failed 5;
  new_tuple = λ i. pos 0;
}

same_speeds : SameSpeeds speeds terminal other
unfolding get_speed
same_speeds output = refl
same_speeds input = refl

terminal-AllKnown : AllKnown speeds terminal terminal_io_descr
unfolding find_value choose_field same_bits baud_of get_speed
terminal-AllKnown = (
  tt,
  (
    tt,
    (
      tt,
      (
        tt,
        (
          tt,
          (
            tt,
            (
              tt,
              (
                tt,
                (
                  tt,
                  (
                    tt,
                    (
                      tt,
                      (
                        tt,
                        (
                          (9600, refl),
                          (
                            (9600, refl),
                            (
                              (3, refl),
                              (
                                (0, refl),
                                (
                                  tt,
                                  (
                                    tt,
                                    (
                                      tt,
                                      (
                                        tt,
                                        (
                                          tt,
                                          (
                                            tt,
                                            (
                                              tt,
                                              (
                                                tt,
                                                (
                                                  tt,
                                                  (
                                                    tt,
                                                    (
                                                      tt,
                                                      (
                                                        tt,
                                                        (
                                                          omega arith,
                                                          (
                                                            omega arith,
                                                            (
                                                            omega arith,
                                                            (
                                                            omega arith,
                                                            (
                                                            omega arith,
                                                            (
                                                            omega arith,
                                                            (
                                                            omega arith,
                                                            (
                                                            omega arith,
                                                            (omega arith, (omega arith, tt)),
                                                            ),
                                                            ),
                                                            ),
                                                            ),
                                                            ),
                                                            ),
                                                          ),
                                                        ),
                                                      ),
                                                    ),
                                                  ),
                                                ),
                                              ),
                                            ),
                                          ),
                                        ),
                                      ),
                                    ),
                                  ),
                                ),
                              ),
                            ),
                          ),
                        ),
                      ),
                    ),
                  ),
                ),
              ),
            ),
          ),
        ),
      ),
    ),
  ),
)

nfields : length terminal_io_descr ≡ 38
nfields = refl

when_2 : get_elem? when_flag_table 2 ≡ some 2
unfolding when_flag_table
when_2 = refl

abbrev every_200 : ℕ → ℤ
every_200 i = pos 200

decode_200 : decode_terminal_status speeds terminal_io_descr 0 every_200 terminal ≡ failed 22
unfolding decode_terminal_status decode_item decode_speed speed_of store_field choose_field
decode_200 = refl

tcsetattr_job-tcgetattr_job_example :
    (src : ℕ → ℤ) × (tcgetattr_job speeds (kernel_of terminal) 0 detach memory
      ≡ ok src (ended detach memory))
    × (u' : Termios) × Merges
        (has_bit terminal_io_descr)
        (has_char terminal_io_descr)
        terminal
        other
        u'
    × SameSpeeds speeds terminal u'
    × (tcsetattr_job speeds (kernel_of other) 1 2 src detach memory
        ≡ raised (unix_error 5 "tcsetattr" "") (ended detach memory))
tcsetattr_job-tcgetattr_job_example =
    tcsetattr_job-tcgetattr_job speeds (kernel_of terminal) (kernel_of other) detach memory 0 1 2 2
      terminal other speeds_steady when_2 refl refl terminal-AllKnown same_speeds
