-- ===== src/Utilities/Tests.antt =====
-- Concrete buffers and chains.
use musketeer.Prelude.{◌≡◌, refl, List, [], ◌∷◌, false, true, arith, All, ok, Returns, ◌+◌}
use musketeer.Errors.{
  failed, done, errno_ignorable, error, ebadf, eagain, ignorable_error, write_error, connect_error,
  read_peer_closed, success,
}
use musketeer.Buffer.{Buffer}
use musketeer.Buffer.Bounds.{IsValid}
use musketeer.Utilities.{idle, write_fd, read_fd, writev_fd, read_bytes, read_failed}
use musketeer.Utilities.Single.{
  SentOne, Received, write_fd_sent, write_fd_failed, write_fd_drained, read_fd-Received,
  read_fd_nothing,
}
use musketeer.Utilities.Vectored.{Sent, writev_fd-Sent, writev_fd_failed, writev_fd_drained}

-- Five bytes in ten.
abbrev five : Buffer
five = record {
  vec = record { size = 10; cap = 10; mem = λ i. i + 1 };
  capacity = 10;
  avail_start = 3;
  avail_end = 8;
}

-- The same storage with nothing in it.
abbrev drained : Buffer
drained = record five { avail_start = 0; avail_end = 0 }

five-IsValid : IsValid five
five-IsValid = omega arith

drained-IsValid : IsValid drained
drained-IsValid = omega arith

abbrev chain : List Buffer
chain = five ∷ drained ∷ five ∷ []

chain_valid : All IsValid chain
chain_valid = (five-IsValid, (drained-IsValid, (five-IsValid, tt)))

-- Seven of ten bytes: the first buffer and two bytes of the third.
writev_fd-Sent_example : Returns (Sent 7 chain) (writev_fd chain (done 7))
writev_fd-Sent_example =
    writev_fd-Sent chain 7 chain_valid (omega arith) (omega arith) (omega arith) (omega arith)

writev_fd_failed_example :
    writev_fd chain (failed eagain)
    ≡ ok (record { ret = true; err = error ignorable_error eagain; all_sent = false; bufs = chain })
unfolding errno_ignorable
writev_fd_failed_example =
    writev_fd_failed chain eagain chain_valid (omega arith) (omega arith) (omega arith)

writev_fd_drained_example :
    writev_fd (drained ∷ drained ∷ []) (done 3) ≡ ok (idle (drained ∷ drained ∷ []))
writev_fd_drained_example =
    writev_fd_drained (drained ∷ drained ∷ []) (done 3) (drained-IsValid, (drained-IsValid, tt))
      (omega arith) refl

write_fd_sent_example : Returns (SentOne 2 five) (write_fd five (done 2))
write_fd_sent_example = write_fd_sent five 2 five-IsValid (omega arith) (omega arith)

write_fd_failed_example :
    write_fd five (failed ebadf)
    ≡ ok (record { ret = false; err = error write_error ebadf; all_sent = false; bufs = five })
unfolding errno_ignorable
write_fd_failed_example = write_fd_failed five ebadf five-IsValid (omega arith)

write_fd_drained_example : write_fd drained (done 2) ≡ ok (idle drained)
write_fd_drained_example = write_fd_drained drained (done 2) drained-IsValid refl

read_fd-Received_example :
    Returns (Received (6 ∷ 7 ∷ []) five) (read_fd five (read_bytes (6 ∷ 7 ∷ [])))
read_fd-Received_example = read_fd-Received five 6 (7 ∷ []) five-IsValid (omega arith)

read_fd_nothing_example :
    (read_fd five (read_bytes [])
      ≡ ok (record (idle five) { err = error read_peer_closed success }))
    × (read_fd five (read_failed ebadf)
        ≡ ok (record {
          ret = false;
          err = error connect_error ebadf;
          all_sent = false;
          bufs = five;
        }))
unfolding errno_ignorable
read_fd_nothing_example = read_fd_nothing five ebadf five-IsValid (omega arith)
