-- ===== src/Core/Links/Closing.antt =====
-- What closing does to the connections of a user.
use ljfxznode.Common.{
  ℕ, ◌≡◌, ◌∙◌, refl, Bool, false, ◌||◌, Option, none, some, [], ◌∷◌, String, ◌==◌, text_key,
  nat_key, arith, if◌then◌else◌, Map, lookup, lookup-delete, keys, contains, IsMap,
}
use ljfxznode.Core.Links.{
  Link, LinkManager, remove_writer, close_writer, close_each, matched, close_by_ip,
}

abbrev pub has_ip : String → Option Link → Bool
has_ip ip none = false
has_ip ip (some link) = link.ip == ip

-- What is left after a snapshot is closed.
lookup-close_each :
    (w : ℕ) (snapshot : Map ℕ Link) (m : LinkManager)
    → lookup w (close_each snapshot m).links
      ≡ (if contains w (keys snapshot) then none else lookup w m.links)
unfolding close_each close_writer remove_writer
lookup-close_each w [] m = refl
lookup-close_each w ((writer, link) ∷ rest) m =
    lookup-close_each w rest _ ∙ ground (arith, lookup-delete writer w m.links)

contains-closed :
    (w : ℕ) (snapshot : Map ℕ Link) (m : LinkManager)
    → contains w (close_each snapshot m).closed
      ≡ (contains w (keys snapshot) || contains w m.closed)
unfolding close_each close_writer remove_writer
contains-closed w [] m = refl
contains-closed w ((writer, link) ∷ rest) m = contains-closed w rest _ ∙ ground arith

lookup-matched :
    (w : ℕ) (ip : String) (links : Map ℕ Link)
    → IsMap links
    → contains w (keys (matched ip links)) ≡ has_ip ip (lookup w links)
unfolding matched lookup
lookup-matched w ip [] h = refl
lookup-matched w ip ((writer, link) ∷ rest) h = ground (arith, lookup-matched w ip rest h.1)

-- Closing by address, for an address that is not empty: exactly the connections of the address are
-- removed, and exactly their writers join those that were closed before.
pub close_by_ip_lem :
    (w : ℕ) (ip : String) (m : LinkManager)
    → (ip == "") ≡ false
    → IsMap m.links
    → (lookup w (close_by_ip ip m).0.links
        ≡ (if has_ip ip (lookup w m.links) then none else lookup w m.links))
      × (contains w (close_by_ip ip m).0.closed
          ≡ (has_ip ip (lookup w m.links) || contains w m.closed))
unfolding close_by_ip
close_by_ip_lem w ip m named h =
    rw (named, close_by_ip)
      (
        lookup-close_each w (matched ip m.links) m ∙ rw (lookup-matched w ip m.links h) refl,
        contains-closed w (matched ip m.links) m ∙ rw (lookup-matched w ip m.links h) refl,
      )
