-- ===== src/Tests/Files.antt =====
-- The theorems on the media store, at a concrete directory. The hash of the example is the length.
use whatsmeow_api.Prelude.{ℕ, refl, false, none, some, List, [], ◌∷◌, length, All}
use whatsmeow_api.Mediastore.{MediaPath, MediaFile, Faults, write}
use whatsmeow_api.Mediastore.Addressed.{IsAddressed, write-IsAddressed}

abbrev hash : List ℕ → List ℕ
hash body = length body ∷ []

abbrev files : List MediaFile
files = record { path = record { sha = 1 ∷ []; ext = ".png"; is_tmp = false }; body = 7 ∷ [] } ∷ []

files-IsAddressed : All (IsAddressed hash) files
files-IsAddressed = (λ _. refl, tt)

abbrev no_faults : Faults
no_faults = record { mkdir_fails = false; write_fails = none; rename_fails = false }

-- The disk is full after one byte.
abbrev full_disk : Faults
full_disk = record no_faults { write_fails = some (8 ∷ []) }

abbrev body : List ℕ
body = 8 ∷ 9 ∷ []

write-IsAddressed_example : All (IsAddressed hash) (write hash full_disk body "image/png" files).1
write-IsAddressed_example =
    write-IsAddressed hash full_disk body "image/png" files files-IsAddressed

abbrev path : MediaPath
path = record { sha = 2 ∷ []; ext = ".png"; is_tmp = false }
