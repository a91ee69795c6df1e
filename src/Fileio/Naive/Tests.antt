-- ===== src/Fileio/Naive/Tests.antt =====
-- A run of both implementations.
use c_proj.Base.{ℕ, ◌≡◌, refl, true, some, List, [], ◌∷◌, arith, get_or, Memory}
use c_proj.Fileio.Disk.{Disk, disk_os, disk_laws}
use c_proj.Fileio.Student.{Io, done, OpenEnv, ◌>>◌, io300_seek, io300_read}
use c_proj.Fileio.Student.Flush.{fetched}
use c_proj.Fileio.Student.Session.{Opened, fetched-Opened, sized}
use c_proj.Fileio.Naive.{naive_seek, naive_read}
use c_proj.Fileio.Naive.Agreement.{SameFile, read-eq-naive_read}

abbrev stale : Memory
stale i = 170

abbrev words : Disk
words = record { size = 6; mem = λ i. get_or (97 ∷ 98 ∷ 99 ∷ 100 ∷ 101 ∷ 102 ∷ []) i 0; offset = 0 }

abbrev given : OpenEnv
given = record { path = true; file_block = true; cache_block = some stale; stale_seeks = 0 }

-- What io300_open leaves.
abbrev cached : Io Disk
cached = fetched disk_laws 4 (sized disk_laws 4 given stale words)

cached-Opened : Opened disk_laws 4 words cached
cached-Opened = fetched-Opened disk_laws 4 given stale words

cached-SameFile : SameFile disk_laws 4 cached words
cached-SameFile = record {
  same_bytes = cached-Opened.byte_kept;
  same_size = cached-Opened.length_kept;
}

naive_run : (naive_read disk_os 3 (naive_seek disk_os 2 words).1).0 ≡ some (99 ∷ 100 ∷ 101 ∷ [])
unfolding naive_read naive_seek
naive_run = refl

read-eq-naive_read_example :
    (bs : List ℕ) × (w1 : Io Disk) × ((io300_seek disk_os 4 2 >> io300_read disk_os 4 3) cached
      ≡ done bs w1)
    × ((naive_read disk_os 3 (naive_seek disk_os 2 words).1).0 ≡ some bs)
read-eq-naive_read_example =
    read-eq-naive_read disk_laws 4 2 3 cached words 6 (omega arith) cached-Opened.valid
      cached-Opened.recorded_size cached-SameFile
