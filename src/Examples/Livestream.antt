-- ===== src/Examples/Livestream.antt =====
-- internal/livestream/manager_test.go: a box, and the beginning of one.
use fragata.Livestream.Tail.{last, joined, tail_write_all, tail_write_all-last}
use fragata.Livestream.{tail_write}
use fragata.Base.{pos, ◌≡◌, refl, [], ◌∷◌, ◌++◌, Bytes, arith}
use fragata.Livestream.{
  read, failed, end_of_stream, big_endian, read_full, read_payload, read_size, read_mp4_box,
}
use fragata.Livestream.Boxes.{be32, read_mp4_box-append, IsFrame, read_mp4_box-IsFrame}

abbrev moof : Bytes
moof = 109 ∷ 111 ∷ 111 ∷ 102 ∷ []

abbrev stream : Bytes
stream = 0 ∷ 0 ∷ 0 ∷ 10 ∷ moof ++ 1 ∷ 2 ∷ 0 ∷ 0 ∷ []

stream-read :
    read_mp4_box stream
    ≡ read
        (record { kind = moof; content = 0 ∷ 0 ∷ 0 ∷ 10 ∷ moof ++ 1 ∷ 2 ∷ []; rest = 0 ∷ 0 ∷ [] })
unfolding big_endian read_full read_payload read_size read_mp4_box
stream-read = refl

rest-failed : read_mp4_box (0 ∷ 0 ∷ []) ≡ failed end_of_stream
unfolding read_full read_mp4_box
rest-failed = refl

read_mp4_box-append_example :
    read_mp4_box ((be32 10 ++ moof ++ 1 ∷ 2 ∷ []) ++ 0 ∷ 0 ∷ [])
    ≡ read (record { kind = moof; content = be32 10 ++ moof ++ 1 ∷ 2 ∷ []; rest = 0 ∷ 0 ∷ [] })
read_mp4_box-append_example =
    read_mp4_box-append 109 111 111 102 (1 ∷ 2 ∷ []) (0 ∷ 0 ∷ []) (omega arith)

read_mp4_box-IsFrame_example : IsFrame stream (read_mp4_box stream)
read_mp4_box-IsFrame_example = read_mp4_box-IsFrame stream

written : tail_write_all (pos 3) [] ((1 ∷ 2 ∷ []) ∷ (3 ∷ 4 ∷ []) ∷ []) ≡ 2 ∷ 3 ∷ 4 ∷ []
unfolding tail_write_all tail_write
written = refl

tail_write_all-last_example :
    tail_write_all (pos 3) (last 3 []) ((1 ∷ 2 ∷ []) ∷ (3 ∷ 4 ∷ []) ∷ [])
    ≡ last 3 (joined [] ((1 ∷ 2 ∷ []) ∷ (3 ∷ 4 ∷ []) ∷ []))
tail_write_all-last_example = tail_write_all-last (pos 3) [] ((1 ∷ 2 ∷ []) ∷ (3 ∷ 4 ∷ []) ∷ [])
