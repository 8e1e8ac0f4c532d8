-- ===== src/Digest.antt =====
-- app/digest.py, and `safe_url_scheme` of app/textutils.py. `scheme` stands for
-- `urlparse(text).scheme.lower()`, `none` where it raises; a date is its formatted text.
pub mod Laws
use Prim.Native.Char.{Char, code}
use Prim.Native.String
use career_spyder.Prelude.{
  ℕ, zero, suc, ◌-◌, String, ◌==◌, Bool, true, false, not, ◌&&◌, ◌||◌, Option, none, some, List, [],
  ◌∷◌, ◌++◌, map, filter, elem, length, take, ltb, leb, nat_eq, if◌then◌else◌, nonempty, truthy,
  text_or,
}
use career_spyder.Text.{join}
use career_spyder.Models.{Job, FailedSource, job_status_label}
use career_spyder.Html.{cat, str, escape, clean}

abbrev pub Statuses : Type 0
Statuses = List (String × Option String)

-- `statuses.get(key)`; a missing key is `None`.
unfoldable pub status_of : Statuses → String → Option String
status_of [] key = none
status_of ((k, s) ∷ statuses) key = if k == key then s else status_of statuses key

pub record Digest : Type 0 where
  pub subject : String
  pub html_body : String

-- `by_company.setdefault(company, []).append(job)`
unfoldable pub add_to_company : String → Job → List (String × List Job) → List (String × List Job)
add_to_company company job [] = (company, job ∷ []) ∷ []
add_to_company company job ((c, jobs) ∷ rest) =
    if c == company
    then (c, jobs ++ job ∷ []) ∷ rest
    else (c, jobs) ∷ add_to_company company job rest

abbrev pub company_of : Job → String
company_of job = text_or job.company "Unknown"

unfoldable pub group : List (String × List Job) → List Job → List (String × List Job)
unfolding add_to_company
group groups [] = groups
group groups (job ∷ jobs) = group (add_to_company (company_of job) job groups) jobs

-- The jobs of a company that are shown, and the number of those that are not.
unfoldable pub shown : ℕ → List Job → List Job × ℕ
shown max_per_company jobs =
    if ltb 0 max_per_company && ltb max_per_company (length jobs)
    then (take max_per_company jobs, length jobs - max_per_company)
    else (jobs, 0)

abbrev flat : List (List String) → List String
flat [] = []
flat (ps ∷ pss) = ps ++ flat pss

-- The arguments of `build_digest` that it only renders.
pub record Options : Type 0 where
  pub statuses : Statuses
  pub searched_at : Option String
  pub jobs_url : Option String
  pub secondary_source_ids : List String
  pub emailed_keys : Option (List String)
  pub max_per_company : ℕ
  pub source_count : ℕ

unfoldable pub checkin_digest : ℕ → Option String → Digest
unfolding str escape
checkin_digest source_count searched_at =
    let when : String = elim searched_at [ none ↦ "unknown" | some t ↦ escape t ] in
    record {
      subject = "CareerSpyder: weekly check-in";
      html_body = cat (
          "<p>No new jobs this week. "
          ∷ str source_count
          ∷ " source(s) configured, all healthy.</p>"
          ∷ "<p>Last run: "
          ∷ when
          ∷ "</p>"
          ∷ []);
    }

module _ (scheme : String → Option String) where
  unfoldable pub safe_url_scheme : String → String
  unfolding clean
  safe_url_scheme url = elim (scheme (clean url)) [
    | none ↦ "#"
    | some s ↦ if nonempty s && not (s == "http" || s == "https") then "#" else url
  ]

  unfoldable pub safe_href : String → String
  unfolding safe_url_scheme escape
  safe_href url = escape (safe_url_scheme url)

  unfoldable pub render_job_item : List String → Statuses → Job → String
  unfolding safe_href status_of job_status_label
  render_job_item secondary_source_ids statuses job =
      let location =
        if truthy job.location then cat (" — " ∷ escape (text_or job.location "") ∷ []) else "" in
      let is_secondary : Bool = elim job.source_id [
        | none ↦ false
        | some i ↦ elem i secondary_source_ids
      ] in
      let source_label =
        if is_secondary
        then cat (escape job.source_name ∷ " [Secondary]" ∷ [])
        else escape job.source_name in
      let source =
        if nonempty job.source_name then cat (" (via " ∷ source_label ∷ ")" ∷ []) else "" in
      let status = text_or (status_of statuses job.key) "" in
      let label : String = elim (job_status_label status) [ none ↦ status | some l ↦ l ] in
      let status_html = if nonempty status then cat (" [" ∷ escape label ∷ "]" ∷ []) else "" in
      cat (
        "<li><a href=\""
        ∷ safe_href job.url
        ∷ "\">"
        ∷ escape job.title
        ∷ "</a>"
        ∷ location
        ∷ source
        ∷ status_html
        ∷ "</li>"
        ∷ [])

  unfoldable pub render_job_list : List String → Statuses → List Job → String → List String
  unfolding render_job_item
  render_job_list secondary_source_ids statuses [] empty_text =
      cat ("<p><em>" ∷ escape empty_text ∷ "</em></p>" ∷ []) ∷ []
  render_job_list secondary_source_ids statuses (job ∷ jobs) empty_text =
      "<ul>" ∷ map (render_job_item secondary_source_ids statuses) (job ∷ jobs) ++ "</ul>" ∷ []

  unfoldable pub render_overflow : Option String → ℕ → List String
  render_overflow jobs_url zero = []
  render_overflow jobs_url (suc n) =
      if truthy jobs_url
      then cat (
          "<p><em>… and "
          ∷ str (suc n)
          ∷ " more — <a href=\""
          ∷ escape (text_or jobs_url "")
          ∷ "\">view all</a></em></p>"
          ∷ [])
        ∷ []
      else cat ("<p><em>… and " ∷ str (suc n) ∷ " more not shown.</em></p>" ∷ []) ∷ []

  -- The section of one company.
  unfoldable pub render_company : Options → String × List Job → List String
  unfolding shown render_job_list render_overflow
  render_company o (company, all_jobs) =
      let part = shown o.max_per_company all_jobs in
      let jobs = part.0 in
      let lists : List String = elim o.emailed_keys [
        | some keys ↦
            "<h4>Newly identified</h4>"
              ∷ render_job_list o.secondary_source_ids o.statuses
                  (filter (λ (j : Job). not (elem j.key keys)) jobs) "No newly identified jobs."
            ++ "<h4>Already identified</h4>"
              ∷ render_job_list o.secondary_source_ids o.statuses
                  (filter (λ (j : Job). elem j.key keys) jobs) "No previously identified jobs."
        | none ↦ render_job_list o.secondary_source_ids o.statuses jobs ""
      ] in
      cat ("<h3>" ∷ escape company ∷ "</h3>" ∷ []) ∷ lists ++ render_overflow o.jobs_url part.1

  unfoldable pub render_failed : FailedSource → String
  unfolding safe_href
  render_failed fs =
      if truthy fs.url
      then cat (
          "<li><a href=\""
          ∷ safe_href (text_or fs.url "")
          ∷ "\" target=\"_blank\" rel=\"noopener noreferrer\">"
          ∷ escape fs.name
          ∷ "</a></li>"
          ∷ [])
      else cat ("<li>" ∷ escape fs.name ∷ "</li>" ∷ [])

  unfoldable pub render_failures : List FailedSource → List String
  unfolding render_failed
  render_failures [] = []
  render_failures (f ∷ fs) =
      "<h3>Sources that failed this run</h3><ul>" ∷ map render_failed (f ∷ fs) ++ "</ul>" ∷ []

  abbrev count_bit {ℓ} : {A : Type ℓ} → List A → String → List String
  count_bit [] label = []
  count_bit (x ∷ xs) label = cat (str (length (x ∷ xs)) ∷ label ∷ []) ∷ []

  unfoldable pub full_digest : List Job → List FailedSource → String → Options → Digest
  unfolding group render_company render_failures
  full_digest new_jobs failed_sources job_label o =
      let bits =
        count_bit new_jobs (cat (" " ∷ job_label ∷ "(s)" ∷ []))
        ++ count_bit failed_sources " source(s) failed" in
      let searched : List String = elim o.searched_at [
        | none ↦ []
        | some t ↦ cat ("<p>Searched " ∷ escape t ∷ "</p>" ∷ []) ∷ []
      ] in
      let link =
        if truthy o.jobs_url
        then cat
            ("<p><a href=\"" ∷ escape (text_or o.jobs_url "") ∷ "\">View all jobs</a></p>" ∷ [])
          ∷ []
        else [] in
      record {
        subject = cat ("CareerSpyder: " ∷ join ", " bits ∷ []);
        html_body = cat (
            searched
            ++ flat (map (render_company o) (group [] new_jobs))
            ++ render_failures failed_sources
            ++ link);
      }

  unfoldable pub build_digest :
      List Job → List FailedSource → String → Bool → Options → Option Digest
  unfolding full_digest checkin_digest
  build_digest [] [] job_label force_checkin o =
      if force_checkin then some (checkin_digest o.source_count o.searched_at) else none
  build_digest (j ∷ jobs) failed_sources job_label force_checkin o =
      some (full_digest (j ∷ jobs) failed_sources job_label o)
  build_digest [] (f ∷ fs) job_label force_checkin o = some (full_digest [] (f ∷ fs) job_label o)
