-- ===== src/InternetArchive/Deletions.antt =====
-- What `queue_internet_archive_deletions` of perma_web/perma/celery_tasks.py does with nothing to delete.
use perma.Prelude.{
  ◌≡◌, refl, false, not, ◌&&◌, Option, none, some, List, [], ◌∷◌, ℕ, zero, suc, arith, All,
  filter_if,
}
use perma.InternetArchive.Upload.{Standing, can_upload_to_internet_archive, ineligible_for_ia}
use perma.InternetArchive.Queueing.{
  ArchivedLink, is_to_delete, index_error, first_of, queue_internet_archive_deletions,
}

-- The query for links to delete picks those that may not be uploaded.
pub ineligible_for_ia-eq-can_upload :
    (link : Standing) → ineligible_for_ia link ≡ not (can_upload_to_internet_archive link)
unfolding ineligible_for_ia can_upload_to_internet_archive
ineligible_for_ia-eq-can_upload link = ground arith

-- A link that may be uploaded, or has no file at the archive that waits for a deletion.
abbrev pub IsKept : ArchivedLink → Type 0
IsKept link =
    (not (can_upload_to_internet_archive link.standing) && is_to_delete link.daily_file) ≡ false

kept-filter_if :
    (links : List ArchivedLink)
    → All IsKept links
    → filter_if
        (λ (link : ArchivedLink). ineligible_for_ia link.standing && is_to_delete link.daily_file)
        links
      ≡ []
kept-filter_if [] h = refl
kept-filter_if (link ∷ links) (h, hs) =
    rw (ineligible_for_ia-eq-can_upload link.standing, h) (kept-filter_if links hs)

first_of-nil : {A : Type 0} (n : Option ℕ) → first_of {A = A} n [] ≡ []
first_of-nil none = refl
first_of-nil (some zero) = refl
first_of-nil (some (suc n)) = refl

-- If every link may be uploaded or has no file that waits for its deletion (none that is confirmed
-- present or whose deletion was attempted), nothing is queued and `queue_internet_archive_deletions`
-- ends in an `IndexError`, whatever the limit is.
pub queue_internet_archive_deletions-index_error :
    (limit before_timeout : Option ℕ) (links : List ArchivedLink)
    → All IsKept links
    → queue_internet_archive_deletions limit before_timeout links ≡ index_error
unfolding queue_internet_archive_deletions
queue_internet_archive_deletions-index_error limit before_timeout links h =
    rw
      (
        kept-filter_if links h,
        first_of-nil {A = ArchivedLink} limit,
        first_of-nil {A = ArchivedLink} before_timeout,
      )
      refl
