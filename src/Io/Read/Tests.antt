-- ===== src/Io/Read/Tests.antt =====
-- The buffered reader of src/hp_io.c with a callback that takes everything.
use libhp.Common.{zero, suc, ◌≡◌, refl, true, false, some, [], ◌∷◌, ◌++◌, append-nil, arith, Bytes}
use libhp.Common.Int.{pos}
use libhp.Io.Os.{eagain}
use libhp.Io.Read.{gives, fails, Kernel, Os, OnData, Rd, Done, rd_read}
use libhp.Io.Read.Stream.{IsParser, Ready, Account, rd_read-Account}

-- A client that collects what it is given.
abbrev collect : OnData Bytes
collect buf s = (pos 0, [], s ++ buf)

collect-IsParser : IsParser collect (λ s. s)
collect-IsParser = record {
  takes_front = λ buf s. append-nil (s ++ buf);
  leaves_less = λ buf s. omega arith;
}

abbrev chatty : Kernel
chatty zero = gives (1 ∷ 2 ∷ 3 ∷ [])
chatty (suc zero) = gives (4 ∷ [])
chatty (suc (suc i)) = fails eagain

abbrev fresh : Os
fresh = record { calls = 0; errno = 0; taken = []; requests = [] }

abbrev small : Rd
small = record {
  i_buf = [];
  buf_max = 2;
  allocated = false;
  i_bytes = 0;
  has_stat = false;
  stat = [];
  has_read_error = true;
  reported = [];
  err = pos 0;
}

small-Ready : Ready small fresh 0
small-Ready = record {
  valid = record { max_pos = omega arith; fits = omega arith };
  requests = tt;
  total_fits = omega arith;
  count_fits = omega arith;
}

rd_read-Account_example :
    (d : Done Bytes) × (rd_read collect 3 chatty small fresh [] ≡ some d)
    × Account collect (λ s. s) small fresh [] 0 d
rd_read-Account_example =
    rd_read-Account collect (λ s. s) collect-IsParser chatty 2 3 small fresh [] refl (omega arith)
      small-Ready
