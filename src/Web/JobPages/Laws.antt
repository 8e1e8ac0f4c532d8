-- ===== src/Web/JobPages/Laws.antt =====
-- Whose jobs the pages show (app/web/routes_jobs.py).
use career_spyder.Web.JobPages.Pins.{
  coordinate_eq, Pin, map_filters, add_pin, group_pins, jobs_map_data,
}
use career_spyder.Web.JobPages.{
  Query, Outside, JobView, is_admin, filter_user_id, list_filters, job_view, jobs,
}
use career_spyder.Prelude.{
  Bool-cases, inl, inr, ◌&&◌, All-append, ℕ, ℤ, String, ◌≡◌, refl, false, Option, none, List, [],
  ◌∷◌, All,
}
use career_spyder.Database.{Database, UserRow}
use career_spyder.Jobs.Listing.Mappable.{MapItem}
use career_spyder.Jobs.Listing.Laws.{list_jobs-owned, All-map}
use career_spyder.Web.QueryParams.{Pairs}

-- The jobs of a pin are rows of one user.
abbrev pub IsPinOf : String → Pin → Type 0
IsPinOf u pin = All (λ (entry : MapItem × String). entry.0.row.user_id ≡ u) pin.jobs

add_pin-IsPinOf :
    (u : String) (entry : MapItem × String) (pins : List Pin)
    → entry.0.row.user_id ≡ u
    → All (IsPinOf u) pins
    → All (IsPinOf u) (add_pin entry pins)
unfolding add_pin
add_pin-IsPinOf u entry [] own h = ((own, tt), tt)
add_pin-IsPinOf u entry (pin ∷ pins) own h =
    elim (Bool-cases (coordinate_eq pin.lat entry.0.lat && coordinate_eq pin.lng entry.0.lng)) [
      | inl e ↦ rw e (
        All-append (λ (m : MapItem × String). m.0.row.user_id ≡ u) pin.jobs (entry ∷ []) h.0
            (own, tt),
        h.1,
      )
      | inr e ↦ rw e (h.0, add_pin-IsPinOf u entry pins own h.1)
    ]

group_pins-IsPinOf :
    (u : String) (scheme : String → Option String) (items : List MapItem) (pins : List Pin)
    → All (IsPinOf u) pins
    → All (λ (item : MapItem). item.row.user_id ≡ u) items
    → All (IsPinOf u) (group_pins scheme pins items)
unfolding group_pins
group_pins-IsPinOf u scheme [] pins h k = h
group_pins-IsPinOf u scheme (item ∷ items) pins h k =
    group_pins-IsPinOf u scheme items _ (add_pin-IsPinOf u _ pins (k.0) h) k.1

-- Whatever a member asks for in the address, the list of jobs and the map show only the member's own jobs.
pub jobs-owned :
    (o : Outside) (now : ℕ) (page : Option ℤ) (sort_by direction : String) (pairs : Pairs)
    (q : Query) (current : UserRow) (db : Database)
    → is_admin current ≡ false
    → All
        (λ (view : JobView). view.item.row.user_id ≡ current.id)
        (jobs o now page sort_by direction pairs q current db).jobs
      × All (IsPinOf current.id) (jobs_map_data o q current db)
unfolding jobs jobs_map_data list_filters map_filters filter_user_id job_view
jobs-owned o now page sort_by direction pairs q current db member = (
  All-map (λ (view : JobView). view.item.row.user_id ≡ current.id) _ _
      (list_jobs-owned o.sql now 25 _ sort_by direction (list_filters o.geocode current q) none db
        current.id (rw member refl)).0,
  group_pins-IsPinOf current.id o.scheme _ [] tt
      (list_jobs-owned o.sql now 25 0 sort_by direction (map_filters o.geocode current q) _ db
        current.id (rw member refl)).1,
)
