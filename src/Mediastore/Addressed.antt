-- ===== src/Mediastore/Addressed.antt =====
-- A stored file holds what its name says.
use mathlib.Core.Option.{some-injective}
use mathlib.Core.Bool.{false≢true}
use whatsmeow_api.Prelude.{
  subst, eqb_iff, ℕ, ◌≡◌, ◌↔◌, refl, sym, ap, ◌∙◌, String, Bool, true, false, Option, none, some,
  List, [], ◌∷◌, length, eq_iff, eq_self, arith, Bool-cases, Option-cases, All, inl, inr,
}
use whatsmeow_api.Text.{codes_eq_iff}
use whatsmeow_api.Errors.{Error, ok, err, ok-injective}
use whatsmeow_api.Table
use whatsmeow_api.Table.Laws.{All-put, All-delete, find-put, find-key}
use whatsmeow_api.Mediastore.{
  MediaPath, MediaFile, Faults, file_key, path_eq, has_size, renamed, written, media_path, write,
}

path_eq_iff : (p q : MediaPath) → (path_eq p q ≡ true) ↔ (p ≡ q)
path_eq_iff p q = (sound, λ e. subst (λ r. path_eq p r ≡ true) e same)
  where
    same : path_eq p p ≡ true
    same = ground (arith, (codes_eq_iff p.sha p.sha).1 refl, eq_self p.ext)

    sound : path_eq p q ≡ true → p ≡ q
    sound h = ground (arith, codes_eq_iff p.sha q.sha, eq_iff p.ext q.ext)

module _ (sha256 : List ℕ → List ℕ) where
  -- Every file that is not a temporary one holds bytes with the hash in its name.
  abbrev pub IsAddressed : MediaFile → Type 0
  IsAddressed f = f.path.is_tmp ≡ false → sha256 f.body ≡ f.path.sha

  renamed-IsAddressed :
      (fails : Bool) (body : List ℕ) (mime : String) (files : List MediaFile)
      → All IsAddressed files
      → All IsAddressed (renamed fails body (media_path sha256 body mime) files).1
  unfolding renamed media_path
  renamed-IsAddressed true body mime files h = All-delete file_key path_eq IsAddressed _ files h
  renamed-IsAddressed false body mime files h =
      All-put file_key path_eq IsAddressed _ _ (λ _. refl)
        (All-delete file_key path_eq IsAddressed _ files h)

  written-IsAddressed :
      (partial : Option (List ℕ)) (fails : Bool) (body : List ℕ) (mime : String)
      (files : List MediaFile)
      → All IsAddressed files
      → All IsAddressed (written partial fails body (media_path sha256 body mime) files).1
  written-IsAddressed (some p) fails body mime files h =
      All-put file_key path_eq IsAddressed _ files (λ e. absurd (cc)) h
  written-IsAddressed none fails body mime files h =
      renamed-IsAddressed fails body mime _
        (All-put file_key path_eq IsAddressed _ files (λ e. absurd (cc)) h)

  -- Whatever calls of the operating system fail, a write leaves every file that is not a temporary one
  -- with bytes of the hash in its name, if that was so before.
  pub write-IsAddressed :
      (faults : Faults) (body : List ℕ) (mime : String) (files : List MediaFile)
      → All IsAddressed files
      → All IsAddressed (write sha256 faults body mime files).1
  unfolding write
  write-IsAddressed faults body mime files h =
      elim (Bool-cases (
        has_size (length body) (Table.find file_key path_eq (media_path sha256 body mime) files))) [
          | inl there ↦ rw there h
          | inr fresh ↦ elim (Bool-cases faults.mkdir_fails) [
            | inl broken ↦ rw (fresh, broken) h
            | inr made ↦
                rw (fresh, made)
                  (written-IsAddressed faults.write_fails faults.rename_fails body mime files h)
          ]
        ]

  found-IsAddressed :
      (p : MediaPath) (files : List MediaFile) (f : MediaFile)
      → All IsAddressed files
      → Table.find file_key path_eq p files ≡ some f
      → IsAddressed f
  unfolding Table.find
  found-IsAddressed p [] f _ e = absurd (cc)
  found-IsAddressed p (x ∷ xs) f (a, more) e = elim (Bool-cases (path_eq x.path p)) [
    | inl here ↦ subst IsAddressed (some-injective x f (rw here at e)) a
    | inr later ↦ found-IsAddressed p xs f more (rw later at e)
  ]

  -- A file of a path, with the hash and the size of `body`.
  abbrev pub Holds : List ℕ → MediaPath → List MediaFile → Type 0
  Holds body path files =
      (f : MediaFile) × (Table.find file_key path_eq path files ≡ some f)
      × (sha256 f.body ≡ sha256 body)
      × (length f.body ≡ length body)

  there-Holds :
      (body : List ℕ) (mime : String) (files : List MediaFile)
      → All IsAddressed files
      → has_size (length body) (Table.find file_key path_eq (media_path sha256 body mime) files)
        ≡ true
      → Holds body (media_path sha256 body mime) files
  unfolding media_path
  there-Holds body mime files h size =
      elim (Option-cases (Table.find file_key path_eq (media_path sha256 body mime) files)) [
        | inl missing ↦ absurd (false≢true (rw missing at size))
        | inr (f, found) ↦
            let at : f.path ≡ media_path sha256 body mime =
              (path_eq_iff f.path (media_path sha256 body mime)).0
                (find-key file_key path_eq (media_path sha256 body mime) files f found) in
            (
              f,
              found,
              found-IsAddressed (media_path sha256 body mime) files f h found
                    (ap MediaPath.is_tmp at)
                  ∙ ap MediaPath.sha at,
              (eqb_iff (length f.body) (length body)).0 (rw found at size),
            )
      ]

  renamed-Holds :
      (fails : Bool) (body : List ℕ) (mime : String) (files : List MediaFile) {sha : List ℕ}
      {path : MediaPath}
      → (renamed fails body (media_path sha256 body mime) files).0 ≡ ok (sha, path)
      → (path ≡ media_path sha256 body mime)
        × Holds body
            (media_path sha256 body mime)
            (renamed fails body (media_path sha256 body mime) files).1
  unfolding renamed
  renamed-Holds true body mime files e = absurd (cc)
  renamed-Holds false body mime files e = (
    sym (ap (λ r. r.1) (ok-injective e)),
    (
      record { path = media_path sha256 body mime; body = body },
      find-put file_key path_eq path_eq_iff (media_path sha256 body mime) _ _
          ∙ rw ((path_eq_iff (media_path sha256 body mime) (media_path sha256 body mime)).1 refl)
              refl,
      refl,
      refl,
    ),
  )

  written-Holds :
      (partial : Option (List ℕ)) (fails : Bool) (body : List ℕ) (mime : String)
      (files : List MediaFile) {sha : List ℕ} {path : MediaPath}
      → (written partial fails body (media_path sha256 body mime) files).0 ≡ ok (sha, path)
      → (path ≡ media_path sha256 body mime)
        × Holds body
            (media_path sha256 body mime)
            (written partial fails body (media_path sha256 body mime) files).1
  written-Holds (some p) fails body mime files e = absurd (cc)
  written-Holds none fails body mime files e = renamed-Holds fails body mime _ e

  -- A write that succeeds returns the path of the bytes' hash and of the MIME type's extension, and
  -- whoever looks there finds a file with the hash and the size of the bytes that were to be written,
  -- if every file there was named by its hash before.
  pub write-Holds :
      (faults : Faults) (body : List ℕ) (mime : String) (files : List MediaFile) (sha : List ℕ)
      (path : MediaPath)
      → All IsAddressed files
      → (write sha256 faults body mime files).0 ≡ ok (sha, path)
      → (path ≡ media_path sha256 body mime)
        × Holds body (media_path sha256 body mime) (write sha256 faults body mime files).1
  unfolding write
  write-Holds faults body mime files sha path h e =
      elim (Bool-cases (
        has_size (length body) (Table.find file_key path_eq (media_path sha256 body mime) files))) [
          | inl there ↦ rw there (
            sym (ap (λ r. r.1) (ok-injective (rw there at e))),
            there-Holds body mime files h there,
          )
          | inr fresh ↦ elim (Bool-cases faults.mkdir_fails) [
            | inl broken ↦ absurd (err_ok (rw (fresh, broken) at e))
            | inr made ↦
                rw (fresh, made)
                  (written-Holds faults.write_fails faults.rename_fails body mime files
                    (rw (fresh, made) at e))
          ]
        ]
    where
      err_ok : {A : Type 0} {x : Error} {a : A} → err x ≡ ok a → ⊥
      err_ok q = absurd (cc)
