-- ===== src/Base/Buffer/Tests.antt =====
-- base/buffer.h: the theorems at small buffers.
use sails.Prelude.{◌≡◌, ◌≤◌, refl, some, [], ◌∷◌, arith, length}
use sails.Base.Buffer.{Buffer, unread, append, retrieve, read_fd, read_int32, append_int32, shrink}
use sails.Base.Buffer.Contents.{Inv, append-unread, retrieve-unread, read_fd-unread}
use sails.Base.Buffer.Words.{read_int32-word, read-append_int32}
use sails.Base.Buffer.Flaws.{shrink-writeable}

-- Six bytes of which the second and the third are unread.
abbrev six : Buffer
six = record { bytes = 65 ∷ 66 ∷ 67 ∷ 0 ∷ 0 ∷ 0 ∷ []; read_index = 1; write_index = 3 }

six-Inv : Inv six
six-Inv = record { ordered = omega arith; within = omega arith; small = omega arith }

abbrev word : Buffer
word = record { bytes = 9 ∷ 0 ∷ 1 ∷ 2 ∷ 3 ∷ 68 ∷ []; read_index = 1; write_index = 6 }

word-Inv : Inv word
word-Inv = record { ordered = omega arith; within = omega arith; small = omega arith }

append-unread_example :
    (c : Buffer) × (append six (70 ∷ 71 ∷ 72 ∷ 73 ∷ []) ≡ some c)
    × Inv c
    × (unread c ≡ 66 ∷ 67 ∷ 70 ∷ 71 ∷ 72 ∷ 73 ∷ [])
    × (length c.bytes ≤ 10)
append-unread_example = append-unread six (70 ∷ 71 ∷ 72 ∷ 73 ∷ []) six-Inv (omega arith)

retrieve-unread_example : Inv (retrieve six 1) × (unread (retrieve six 1) ≡ 67 ∷ [])
retrieve-unread_example = retrieve-unread six 1 six-Inv

read_fd-unread_example :
    (c : Buffer) × (read_fd six 512 (some (70 ∷ [])) ≡ some (some 1, c))
    × Inv c
    × (unread c ≡ 66 ∷ 67 ∷ 70 ∷ [])
read_fd-unread_example = read_fd-unread six 512 (70 ∷ []) six-Inv (omega arith) (omega arith)

read_int32-word_example :
    (c : Buffer) × (read_int32 word ≡ some (66051, c)) × Inv c × (unread c ≡ 68 ∷ [])
read_int32-word_example = read_int32-word word 66051 (68 ∷ []) word-Inv (omega arith) refl

abbrev drained : Buffer
drained = record six { read_index = 3 }

read-append_int32_example :
    (c d : Buffer) × (append_int32 drained 66051 ≡ some c)
    × (read_int32 c ≡ some (66051, d))
    × Inv d
    × (unread d ≡ [])
read-append_int32_example =
    read-append_int32 drained 66051
      (record { ordered = omega arith; within = omega arith; small = omega arith }) (omega arith)
      refl (omega arith)

shrink-writeable_example :
    (c : Buffer) × (shrink six 10 ≡ some c)
    × Inv c
    × (unread c ≡ 66 ∷ 67 ∷ 0 ∷ [])
    × (length (unread c) ≡ 3)
shrink-writeable_example = shrink-writeable six 10 six-Inv (omega arith)
