-- ===== src/Db/Consistent.antt =====
-- The invariant of the tables of links, clicks and tokens.
pub mod Lists
pub mod Steps
pub mod Ops
pub mod TokenOps
use shortner.Shared.{
  ℕ, ◌+◌, ◌≤◌, ◌≡◌, Bool, true, false, List, [], ◌∷◌, Bytes, if◌then◌else◌, All, count_if, find_if,
  eq_bytes,
}
use shortner.Db.Rows.{LinkRow, ClickRow, TokenRow}
use shortner.Db.Exec.{Tables}
use shortner.Db.Links.{has_id, has_code, of_link, is_some}

-- No later row has the short code of an earlier one.
abbrev pub Distinct : List LinkRow → Type 0
Distinct [] = Unit
Distinct (l ∷ ls) = (is_some (find_if (has_code l.short_code) ls) ≡ false) × Distinct ls

-- A row of `links`, beside the clicks: its counter is the number of its clicks.
abbrev pub LinkFits : ℕ → List ClickRow → LinkRow → Type 0
LinkFits last clicks l = (l.id ≤ last) × (l.click_count ≡ count_if (of_link l.id) clicks)

-- A click refers to a link that exists.
abbrev pub ClickFits : ℕ → List LinkRow → ClickRow → Type 0
ClickFits last links c = (c.id ≤ last) × (is_some (find_if (has_id c.link_id) links) ≡ true)

pub record Consistent (t : Tables) : Type 0 where
  pub codes_differ : Distinct t.links
  pub links_fit : All (LinkFits t.last_link t.clicks) t.links
  pub clicks_fit : All (ClickFits t.last_click t.links) t.clicks
