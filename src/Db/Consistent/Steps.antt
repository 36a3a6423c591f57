-- ===== src/Db/Consistent/Steps.antt =====
-- What each statement does to the invariant.
use shortner.Shared.{
  ℕ, ◌+◌, ◌≤◌, ◌≡◌, refl, sym, ◌∙◌, true, false, not, ◌&&◌, Option, [], ◌∷◌, ◌++◌, arith,
  if◌then◌else◌, Bool-cases, inl, inr, All, All-map, All-keep_if, count_if, find_if, keep_if, Bytes,
}
use shortner.Db.Rows.{LinkRow, ClickRow}
use shortner.Db.Exec.{Tables, done}
use shortner.Db.Exec.Keeps.{KeepsS}
use shortner.Db.Links
use shortner.Db.Links.{has_id, has_code, of_link, is_some, new_link}
use shortner.Db.Clicks
use shortner.Db.Clicks.{new_click, Visit}
use shortner.Db.Consistent.{Distinct, ClickFits, Consistent}
use shortner.Db.Consistent.Lists.{
  found-concat, count-concat, All-concat, count-fresh, Distinct-concat, found_id-update,
  Distinct-update, Distinct-keep, found-other, count-other, none_left, All-kept, All-updated,
  All-zip,
}

module _ {t : Tables} (h : Consistent t) where
  no_click_yet : count_if (of_link (t.last_link + 1)) t.clicks ≡ 0
  no_click_yet =
      count-fresh (t.last_link + 1) t.last_click t.links t.clicks t.last_link
        (All-map _ _ t.links (λ l fit. fit.0) h.links_fit) (omega arith) h.clicks_fit

  pub added-Consistent :
      (l : LinkRow)
      → is_some (find_if (has_code l.short_code) t.links) ≡ false
      → l.id ≡ t.last_link + 1
      → l.click_count ≡ 0
      → Consistent (record t { links = t.links ++ l ∷ []; last_link = t.last_link + 1 })
  added-Consistent l free new unused = record {
    codes_differ = Distinct-concat t.links l h.codes_differ free;
    links_fit =
        All-concat _ t.links l (All-map _ _ t.links (λ l fit. (omega arith, fit.1)) h.links_fit)
          (omega arith, rw new (unused ∙ sym no_click_yet));
    clicks_fit =
        All-map _ _ t.clicks
          (λ c fit. (fit.0, ground (arith, found-concat (has_id c.link_id) t.links l)))
          h.clicks_fit;
  }

pub insert_links-Consistent :
    (code destination : Bytes) (expires : Option ℕ)
    → KeepsS Consistent (Links.insert_links code destination expires)
unfolding Links.insert_links
insert_links-Consistent code destination expires now t h =
    elim (Bool-cases (is_some (find_if (has_code code) t.links))) [
      | inl taken ↦ rw taken h
      | inr free ↦ rw free (added-Consistent h _ free refl refl)
    ]

-- An update of destination and expiry only.
pub update_links-Consistent :
    (id : ℕ) (f : LinkRow → LinkRow)
    → ((l : LinkRow) → (f l).id ≡ l.id)
    → ((l : LinkRow) → (f l).short_code ≡ l.short_code)
    → ((l : LinkRow) → (f l).click_count ≡ l.click_count)
    → KeepsS Consistent (Links.update_links id f)
unfolding Links.update_links
update_links-Consistent id f fid fcode fcount now t h = record {
  codes_differ = Distinct-update id f fid fcode t.links h.codes_differ;
  links_fit =
      All-updated _ _ (has_id id) f t.links (λ l fit. ground (arith, fid l, fcount l, fit.0, fit.1))
        h.links_fit;
  clicks_fit =
      All-map _ _ t.clicks
        (λ c fit. (fit.0, found_id-update id f fid fcode c.link_id t.links ∙ fit.1)) h.clicks_fit;
}

-- The clicks of `id` are gone and its link is still there, with a counter that no longer fits.
pub record Unclicked (id : ℕ) (t : Tables) : Type 0 where
  pub codes_differ : Distinct t.links
  pub links_fit :
      All
        (λ (l : LinkRow).
          (l.id ≤ t.last_link)
          × (not (has_id id l) ≡ true → l.click_count ≡ count_if (of_link l.id) t.clicks))
        t.links
  pub clicks_fit : All (ClickFits t.last_click t.links) t.clicks
  pub no_clicks : All (λ (c : ClickRow). of_link id c ≡ false) t.clicks

pub delete_clicks-Unclicked :
    (id now : ℕ) (t : Tables) → Consistent t → Unclicked id (Links.delete_clicks id now t).1
unfolding Links.delete_clicks
delete_clicks-Unclicked id now t h = record {
  codes_differ = h.codes_differ;
  links_fit =
      All-map _ _ t.links
        (λ l fit. (fit.0, λ other. fit.1 ∙ sym (count-other id l.id t.clicks (ground arith))))
        h.links_fit;
  clicks_fit = All-keep_if _ _ t.clicks h.clicks_fit;
  no_clicks = none_left id t.clicks;
}

pub delete_tokens-Unclicked : (id : ℕ) → KeepsS (Unclicked id) (Links.delete_tokens id)
unfolding Links.delete_tokens
delete_tokens-Unclicked id now t h = record {
  codes_differ = h.codes_differ;
  links_fit = h.links_fit;
  clicks_fit = h.clicks_fit;
  no_clicks = h.no_clicks;
}

deleted-Consistent :
    (id : ℕ) (t : Tables)
    → Unclicked id t
    → Consistent (record t { links = keep_if (λ l. not (has_id id l)) t.links })
deleted-Consistent id t h = record {
  codes_differ = Distinct-keep _ t.links h.codes_differ;
  links_fit =
      All-kept _ _ t.links (All-map _ _ t.links (λ l fit other. (fit.0, fit.1 other)) h.links_fit);
  clicks_fit =
      All-map _ _ t.clicks (λ c fit. (fit.0.0, found-other id c.link_id t.links fit.1 ∙ fit.0.1))
        (All-zip _ _ t.clicks h.clicks_fit h.no_clicks);
}

pub delete_links-Consistent :
    (id now : ℕ) (t : Tables) (n : ℕ)
    → Unclicked id t
    → (Links.delete_links id now t).0 ≡ done n
    → Consistent (Links.delete_links id now t).1
unfolding Links.delete_links
delete_links-Consistent id now t n h e =
    elim (Bool-cases
      (is_some (find_if (has_id id) t.links) && is_some (find_if (of_link id) t.clicks))) [
        | inl refused ↦ absurd (ground arith)
        | inr fine ↦ rw fine (deleted-Consistent id t h)
      ]

-- The click of `link_id` is stored and not yet counted.
pub record Uncounted (link_id : ℕ) (t : Tables) : Type 0 where
  pub codes_differ : Distinct t.links
  pub links_fit :
      All
        (λ (l : LinkRow).
          (l.id ≤ t.last_link)
          × (l.click_count + (if has_id link_id l then 1 else 0)
              ≡ count_if (of_link l.id) t.clicks))
        t.links
  pub clicks_fit : All (ClickFits t.last_click t.links) t.clicks

clicked-Uncounted :
    (link_id : ℕ) (t : Tables) (c : ClickRow)
    → Consistent t
    → c.link_id ≡ link_id
    → c.id ≡ t.last_click + 1
    → is_some (find_if (has_id link_id) t.links) ≡ true
    → Uncounted link_id (record t { clicks = t.clicks ++ c ∷ []; last_click = t.last_click + 1 })
clicked-Uncounted link_id t c h mine new there = record {
  codes_differ = h.codes_differ;
  links_fit =
      All-map _ _ t.links
        (λ l fit. (fit.0, ground (arith, count-concat (of_link l.id) t.clicks c, fit.1)))
        h.links_fit;
  clicks_fit =
      All-concat _ t.clicks c (All-map _ _ t.clicks (λ c fit. (omega arith, fit.1)) h.clicks_fit)
        (omega arith, rw mine there);
}

pub insert_clicks-Uncounted :
    (link_id : ℕ) (v : Visit) (now : ℕ) (t : Tables) (id : ℕ)
    → Consistent t
    → (Clicks.insert_clicks link_id v now t).0 ≡ done id
    → Uncounted link_id (Clicks.insert_clicks link_id v now t).1
unfolding Clicks.insert_clicks
insert_clicks-Uncounted link_id v now t id h e =
    elim (Bool-cases (is_some (find_if (has_id link_id) t.links))) [
      | inl there ↦ rw there (clicked-Uncounted link_id t _ h refl refl there)
      | inr missing ↦ absurd (ground arith)
    ]

pub count_click-Consistent :
    (link_id now : ℕ) (t : Tables)
    → Uncounted link_id t
    → Consistent
        (Links.update_links link_id (λ l. record l { click_count = l.click_count + 1 }) now t).1
unfolding Links.update_links
count_click-Consistent link_id now t h = record {
  codes_differ = Distinct-update link_id _ (λ l. refl) (λ l. refl) t.links h.codes_differ;
  links_fit =
      All-updated _ _ (has_id link_id) _ t.links (λ l fit. ground (arith, fit.0, fit.1))
        h.links_fit;
  clicks_fit =
      All-map _ _ t.clicks
        (λ c fit.
          (fit.0, found_id-update link_id _ (λ l. refl) (λ l. refl) c.link_id t.links ∙ fit.1))
        h.clicks_fit;
}
