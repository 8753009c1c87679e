-- ===== src/Recorder/Clearing.antt =====
-- What is left of the partial files after internal/recording/recover.go.
use fragata.Base.{
  ◌≡◌, ◌⊎◌, refl, ◌∙◌, inl, inr, Bool, true, false, not, ◌||◌, List, [], ◌∷◌, Bytes, codes,
  bytes_eq, bytes_eq_iff, Option, none, some, Table, lookup, lookup-delete, if◌then◌else◌, arith,
  split_if, split_option, Bool-cases, All,
}
use fragata.Hub.{is_nil}
use fragata.Recorder.Recover.{
  not_exist, other_error, Visit, unread, found, Visited, has_suffix, recovered_path, recover_file,
  recover_visit, walk,
}
use fragata.Recorder.Recovery.{
  IsPartial, IsVisit, visit-IsPartial, recovered_path-other, lookup-renamed,
}

abbrev pub is_none : Option Bytes → Bool
is_none none = true
is_none (some content) = false

is_none-none : (o : Option Bytes) → is_none o ≡ true → o ≡ none
is_none-none none h = refl
is_none-none (some content) h = cc

-- Whether a visited file that is partial is gone.
unfoldable pub is_cleared : Table Bytes → Visit → Bool
is_cleared disk (unread e) = true
is_cleared disk (found path name is_dir) =
    (is_dir || not (has_suffix name (codes ".mkv.partial"))) || is_none (lookup path disk)

module _ (refuses : Bytes → Bool) where
  -- After a visit without an error, or one that found nothing there, a partial file is not there.
  Gone : Bytes → Table Bytes → Visited → Type 0
  Gone q disk after = (after.failed ≡ none) ⊎ (lookup q disk ≡ none) → lookup q after.disk ≡ none

  recover_file-Gone :
      (path content : Bytes) (disk : Table Bytes) (q : Bytes)
      → IsPartial path
      → IsPartial q
      → (bytes_eq path q ≡ true) ⊎ (lookup q disk ≡ none)
      → Gone q disk (recover_file refuses path content disk)
  unfolding recover_file Gone
  recover_file-Gone path content disk q partial partial_q reason =
      let gone : (if bytes_eq path q then none else lookup q disk) ≡ none = elim reason [
        | inl e ↦ rw e refl
        | inr e ↦
            rw e (split_if (λ o. o ≡ none) (bytes_eq path q) none none (λ _. refl) (λ _. refl))
      ] in
      let elsewhere = recovered_path-other disk path q partial partial_q in
      split_if (Gone q disk) (refuses path) _ _ (λ _. failed-Gone disk)
        (λ _.
          split_if (Gone q disk) (is_nil content) _ _ (λ _ _. lookup-delete path q disk ∙ gone)
            (λ _ _.
              lookup-renamed path (recovered_path disk path) content disk q ∙ rw elsewhere gone))
    where
      failed-Gone :
          (d : Table Bytes)
          → Gone q d (record { disk = d; recovered = []; failed = some other_error })
      failed-Gone d (inl e) = absurd cc
      failed-Gone d (inr e) = e

  visit-stays :
      (v : Visit) (disk : Table Bytes) (q : Bytes)
      → IsVisit v
      → IsPartial q
      → lookup q disk ≡ none
      → lookup q (recover_visit refuses v disk).disk ≡ none
  unfolding recover_visit Gone
  visit-stays (unread not_exist) disk q visit partial h = h
  visit-stays (unread other_error) disk q visit partial h = h
  visit-stays (found path name is_dir) disk q visit partial h =
      let Q = λ (v : Visited). lookup q v.disk ≡ none in
      split_if Q (is_dir || not (has_suffix name (codes ".mkv.partial"))) _ _ (λ _. h)
        (λ file.
          split_option Q (lookup path disk) _ _ (λ _. h)
            (λ content _.
              recover_file-Gone path content disk q
                (visit-IsPartial path name visit (ground (arith, file))) partial (inr h) (inr h)))

  visit-clears :
      (v : Visit) (disk : Table Bytes)
      → IsVisit v
      → (recover_visit refuses v disk).failed ≡ none
      → is_cleared (recover_visit refuses v disk).disk v ≡ true
  unfolding recover_visit is_cleared Gone
  visit-clears (unread not_exist) disk visit h = refl
  visit-clears (unread other_error) disk visit h = refl
  visit-clears (found path name is_dir) disk visit h =
      let skipped = is_dir || not (has_suffix name (codes ".mkv.partial")) in
      let Q = λ (v : Visited). v.failed ≡ none → (skipped || is_none (lookup path v.disk)) ≡ true in
      split_if Q skipped _ _ (λ e _. rw e refl)
        (λ file.
          split_option Q (lookup path disk) _ (λ content. recover_file refuses path content disk)
            (λ _ e. absurd cc)
            (λ content _ e.
              let partial = visit-IsPartial path name visit (ground (arith, file)) in
              rw
                (
                  file,
                  recover_file-Gone path content disk path partial partial
                      (inl ((bytes_eq_iff path path).1 refl)) (inl e),
                )
                refl))
        h

  walk-stays :
      (visits : List Visit) (disk : Table Bytes)
      → All IsVisit visits
      → (q : Bytes) → IsPartial q
      → lookup q disk ≡ none
      → lookup q (walk refuses visits disk).disk ≡ none
  unfolding walk
  walk-stays [] disk all q partial h = h
  walk-stays (v ∷ visits) disk all q partial h =
      let here = visit-stays v disk q all.0 partial h in
      split_option (λ (w : Visited). lookup q w.disk ≡ none) (recover_visit refuses v disk).failed _
        _ (λ _. walk-stays visits (recover_visit refuses v disk).disk all.1 q partial here)
        (λ _ _. here)

  is_cleared-stays :
      (disk later : Table Bytes) (v : Visit)
      → IsVisit v
      → ((q : Bytes) → IsPartial q → lookup q disk ≡ none → lookup q later ≡ none)
      → is_cleared disk v ≡ true
      → is_cleared later v ≡ true
  unfolding is_cleared
  is_cleared-stays disk later (unread e) visit stays h = refl
  is_cleared-stays disk later (found path name is_dir) visit stays h =
      elim (Bool-cases (is_dir || not (has_suffix name (codes ".mkv.partial")))) [
        | inl skipped ↦ rw skipped refl
        | inr file ↦
            let partial = visit-IsPartial path name visit (ground (arith, file)) in
            rw (file, stays path partial (is_none-none (lookup path disk) (rw file at h))) refl
      ]

  -- After a walk that ends without an error, no partial file that it visited is left.
  pub walk-clears :
      (visits : List Visit) (disk : Table Bytes)
      → All IsVisit visits
      → (walk refuses visits disk).failed ≡ none
      → All (λ v. is_cleared (walk refuses visits disk).disk v ≡ true) visits
  unfolding walk
  walk-clears [] disk all h = tt
  walk-clears (v ∷ visits) disk all h =
      let here = recover_visit refuses v disk in
      let rest = walk refuses visits here.disk in
      let Q =
        λ (w : Visited). w.failed ≡ none → All (λ u. is_cleared w.disk u ≡ true) (v ∷ visits) in
      split_option Q here.failed _ _
        (λ well e. (
          is_cleared-stays here.disk rest.disk v all.0 (walk-stays visits here.disk all.1)
              (visit-clears v disk all.0 well),
          walk-clears visits here.disk all.1 e,
        ))
        (λ _ failed e. absurd (cc (failed, e))) h
