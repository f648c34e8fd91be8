-- ===== src/Worker/Descriptors/Planning.antt =====
-- What the planning of a snapshot's files gives.
use utm_curs_i_orar.Prelude.{
  ℕ, ◌+◌, ◌<◌, ◌≡◌, ◌≢◌, refl, true, false, Option, none, some, List, [], ◌∷◌, map, All, inl, inr,
  Bool-cases, Option-cases, if◌then◌else◌, arith, ◌∙◌, subst,
}
use utm_curs_i_orar.Text.{Text, codes, text_eq}
use utm_curs_i_orar.Text.Laws.{text_eq_iff, append_cancel}
use utm_curs_i_orar.Worker.Types.{PendingFile, PendingDescriptor}
use utm_curs_i_orar.Worker.Keys.{snapshot_pdf_key}
use utm_curs_i_orar.Worker.Keys.Laws.{decimal-injective, snapshot_pdf_key-injective}
use utm_curs_i_orar.Worker.Platform.{Platform}
use utm_curs_i_orar.Worker.Policy.{is_official_timetable_pdf_url, contains}
use utm_curs_i_orar.Worker.Jobs.{
  is_valid_file, file_id_for_index, get_pdf_filename, qualified_pdf_filename,
}
use utm_curs_i_orar.Worker.Descriptors.{
  choose_filename, plan_file, plan_from_index, plan_snapshot_files, check_files,
  descriptor_file_error,
}

contains-false : (t : Text) (us : List Text) → All (λ u. t ≢ u) us → contains t us ≡ false
unfolding contains
contains-false t [] a = refl
contains-false t (u ∷ us) (x, a) = elim (Bool-cases (text_eq t u)) [
  | inl same ↦ absurd (x ((text_eq_iff t u).0 same))
  | inr other ↦ rw other (contains-false t us a)
]

module _ (p : Platform) (snapshot_id : Text) where
  -- The ids given before `index`, and the keys of the names taken.
  abbrev IdsBelow : ℕ → List Text → Type 0
  IdsBelow index ids = All (λ i. (j : ℕ) × (i ≡ file_id_for_index j) × (j < index)) ids

  IdsBelow-grows : (index : ℕ) (ids : List Text) → IdsBelow index ids → IdsBelow (index + 1) ids
  IdsBelow-grows index [] a = tt
  IdsBelow-grows index (i ∷ ids) ((j, e, l), a) =
      ((j, e, omega (arith, l)), IdsBelow-grows index ids a)

  id_fresh :
      (index : ℕ) (ids : List Text)
      → IdsBelow index ids
      → All (λ u. file_id_for_index index ≢ u) ids
  id_fresh index [] a = tt
  id_fresh index (i ∷ ids) ((j, e, l), a) = (
    λ same.
        let q : index ≡ j = decimal-injective index j (append_cancel (codes "f") _ _ (same ∙ e)) in
        omega (arith, q, l),
    id_fresh index ids a,
  )

  key_fresh :
      (filename : Text) (taken : List Text)
      → contains filename taken ≡ false
      → contains (snapshot_pdf_key snapshot_id filename) (map (snapshot_pdf_key snapshot_id) taken)
        ≡ false
  unfolding contains
  key_fresh filename [] h = refl
  key_fresh filename (t ∷ taken) h =
      let k : Text = snapshot_pdf_key snapshot_id filename in
      let other : text_eq filename t ≡ false = ground arith in
      elim (Bool-cases (text_eq k (snapshot_pdf_key snapshot_id t))) [
        | inl same ↦ absurd (
            cc (
              other,
              (text_eq_iff filename t).1
                  (snapshot_pdf_key-injective snapshot_id filename t ((text_eq_iff k _).0 same)),
            ))
        | inr e ↦ rw e (key_fresh filename taken (ground arith))
      ]

  choose_filename-fresh :
      (taken : List Text) (index : ℕ) (url filename : Text)
      → choose_filename p taken index url ≡ some filename
      → contains filename taken ≡ false
  unfolding choose_filename
  choose_filename-fresh taken index url filename h =
      elim (Bool-cases (contains (get_pdf_filename url) taken)) [
        | inr fresh ↦
            let e : some (get_pdf_filename url) ≡ some filename =
              rw (fresh, choose_filename) at h in
            cc
        | inl taken' ↦ elim (Option-cases (qualified_pdf_filename url none)) [
          | inl undated ↦
              let e : none ≡ some filename = rw (taken', undated, choose_filename) at h in cc
          | inr (dated, is) ↦ elim (Bool-cases (contains dated taken)) [
            | inr fresh ↦
                let e : some dated ≡ some filename = rw (taken', is, fresh, choose_filename) at h in
                cc
            | inl dated' ↦
                numbered_fresh taken index url filename
                  (rw (taken', is, dated', choose_filename) at h)
          ]
        ]
      ]
    where
      numbered_fresh :
          (taken : List Text) (index : ℕ) (url filename : Text)
          → (elim (qualified_pdf_filename url (some (file_id_for_index index)))
              as (λ _. Option Text) [
                | none ↦ none
                | some numbered ↦ if contains numbered taken then none else some numbered
              ])
            ≡ some filename
          → contains filename taken ≡ false
      numbered_fresh taken index url filename h = ground arith

  -- A planned file is sound and fresh.
  plan_file_lem :
      (taken : List Text) (index : ℕ) (url : Text) (file : PendingFile)
      → plan_file p snapshot_id taken index url ≡ some file
      → (is_valid_file p snapshot_id file ≡ true)
        × (file.file_id ≡ file_id_for_index index)
        × (file.source_url ≡ url)
        × (file.r2_key ≡ snapshot_pdf_key snapshot_id file.filename)
        × (contains file.filename taken ≡ false)
  unfolding plan_file
  plan_file_lem taken index url file h = elim (Bool-cases (is_official_timetable_pdf_url p url)) [
    | inr foreign ↦ let e : none ≡ some file = rw (foreign, plan_file) at h in cc
    | inl official ↦ elim (Option-cases (choose_filename p taken index url)) [
      | inl unnamed ↦ let e : none ≡ some file = rw (official, unnamed, plan_file) at h in cc
      | inr (filename, is) ↦
          let entry : PendingFile = record {
            file_id = file_id_for_index index;
            filename = filename;
            source_url = url;
            r2_key = snapshot_pdf_key snapshot_id filename;
          } in
          let e : (if is_valid_file p snapshot_id entry then some entry else none) ≡ some file =
            rw (official, is, plan_file) at h in
          elim (Bool-cases (is_valid_file p snapshot_id entry)) [
            | inr bad ↦ let e' : none ≡ some file = rw bad at e in cc
            | inl valid ↦
                let e' : some entry ≡ some file = rw valid at e in
                let q : entry ≡ file = cc in
                subst
                  (λ (x : PendingFile).
                    (is_valid_file p snapshot_id x ≡ true)
                    × (x.file_id ≡ file_id_for_index index)
                    × (x.source_url ≡ url)
                    × (x.r2_key ≡ snapshot_pdf_key snapshot_id x.filename)
                    × (contains x.filename taken ≡ false))
                  q (valid, refl, refl, refl, choose_filename-fresh taken index url filename is)
          ]
    ]
  ]

  -- What `plan_from_index` gives, given what was planned before.
  IsPlan : List Text → List Text → List Text → List PendingFile → Type 0
  IsPlan ids keys urls files =
      (check_files p snapshot_id ids keys files ≡ none)
      × (map (λ (f : PendingFile). f.source_url) files ≡ urls)

  planned :
      (taken ids urls : List Text) (index : ℕ) (url : Text) (file : PendingFile)
      (files : List PendingFile)
      → IdsBelow index ids
      → plan_file p snapshot_id taken index url ≡ some file
      → IsPlan
          (file.file_id ∷ ids)
          (map (snapshot_pdf_key snapshot_id) (file.filename ∷ taken))
          urls
          files
      → IsPlan ids (map (snapshot_pdf_key snapshot_id) taken) (url ∷ urls) (file ∷ files)
  unfolding check_files IsPlan
  planned taken ids urls index url file files below h (checked, sources) =
      let (valid, id, source, key, fresh) = plan_file_lem taken index url file h in
      let new_id : contains file.file_id ids ≡ false =
        rw id (contains-false (file_id_for_index index) ids (id_fresh index ids below)) in
      let new_key : contains file.r2_key (map (snapshot_pdf_key snapshot_id) taken) ≡ false =
        rw key (key_fresh file.filename taken fresh) in
      let rest : check_files p snapshot_id (file.file_id ∷ ids)
            (file.r2_key ∷ map (snapshot_pdf_key snapshot_id) taken) files
          ≡ none =
        rw key checked in
      (rw (valid, new_id, new_key, rest) refl, cc (source, sources))

  plan_from_index_lem :
      (taken : List Text) (index : ℕ) (urls ids : List Text) (files : List PendingFile)
      → IdsBelow index ids
      → plan_from_index p snapshot_id taken index urls ≡ some files
      → IsPlan ids (map (snapshot_pdf_key snapshot_id) taken) urls files
  unfolding plan_from_index check_files IsPlan
  plan_from_index_lem taken index [] ids files below h =
      let e : [] ≡ files = cc in
      subst (λ x. IsPlan ids (map (snapshot_pdf_key snapshot_id) taken) [] x) e (refl, refl)
  plan_from_index_lem taken index (url ∷ urls) ids files below h =
      elim (Option-cases (plan_file p snapshot_id taken index url)) [
        | inl bad ↦ let e : none ≡ some files = rw (bad, plan_from_index) at h in cc
        | inr (file, is) ↦
            elim (Option-cases
              (plan_from_index p snapshot_id (file.filename ∷ taken) (index + 1) urls)) [
                | inl bad ↦ let e : none ≡ some files = rw (is, bad, plan_from_index) at h in cc
                | inr (entries, rest) ↦
                    let e : some (file ∷ entries) ≡ some files =
                      rw (is, rest, plan_from_index) at h in
                    let q : file ∷ entries ≡ files = cc in
                    let (valid, id, source, key, fresh) = plan_file_lem taken index url file is in
                    subst
                      (λ x. IsPlan ids (map (snapshot_pdf_key snapshot_id) taken) (url ∷ urls) x) q
                      (planned taken ids urls index url file entries below is (
                        plan_from_index_lem (file.filename ∷ taken) (index + 1) urls
                          (file.file_id ∷ ids) entries
                          ((index, id, omega arith), IdsBelow-grows index ids below) rest))
              ]
      ]

  -- A plan that is made has one file per URL, in their order, and a descriptor of this snapshot
  -- that lists these files passes the check that every later stage makes of it: there is a file,
  -- each is sound, and no two have the same id or the same key.
  pub plan_snapshot_files-IsSound :
      (url : Text) (urls : List Text) (files : List PendingFile) (d : PendingDescriptor)
      → plan_snapshot_files p snapshot_id (url ∷ urls) ≡ some files
      → d.snapshot_id ≡ snapshot_id
      → d.files ≡ files
      → (descriptor_file_error p d ≡ none)
        × (map (λ (f : PendingFile). f.source_url) d.files ≡ url ∷ urls)
  unfolding plan_snapshot_files descriptor_file_error IsPlan
  plan_snapshot_files-IsSound url urls files d h own lists =
      let (checked, sources) : IsPlan [] [] (url ∷ urls) files =
        plan_from_index_lem [] 0 (url ∷ urls) [] files tt h in
      (non_empty d files lists (rw own checked) sources, rw lists sources)
    where
      non_empty :
          (d : PendingDescriptor) (files : List PendingFile)
          → d.files ≡ files
          → check_files p d.snapshot_id [] [] files ≡ none
          → map (λ (f : PendingFile). f.source_url) files ≡ url ∷ urls
          → descriptor_file_error p d ≡ none
      non_empty d [] lists checked sources = cc
      non_empty d (f ∷ fs) lists checked sources = rw lists checked
