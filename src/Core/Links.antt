-- ===== src/Core/Links.antt =====
-- The open connections of a user: core/xray/app/dispatcher/linkmanager.go. A writer is the number
-- that stands for its pointer.
pub mod Closing
use ljfxznode.Common.{
  ℕ, Bool, List, [], ◌∷◌, String, ◌==◌, text_key, nat_key, if◌then◌else◌, Map, insert, delete,
  length,
}

-- `ManagedWriter.ip`, and the reader that belongs to the writer.
pub record Link : Type 0 where
  pub ip : String
  pub reader : ℕ

-- The writers closed and the readers interrupted so far come after the links, newest first.
pub record LinkManager : Type 0 where
  pub links : Map ℕ Link
  pub closed : List ℕ
  pub interrupted : List ℕ

abbrev pub no_links : LinkManager
no_links = record { links = []; closed = []; interrupted = [] }

unfoldable pub add_link : ℕ → Link → LinkManager → LinkManager
add_link writer link m = record m { links = insert writer link m.links }

unfoldable pub remove_writer : ℕ → LinkManager → LinkManager
remove_writer writer m = record m { links = delete writer m.links }

-- `ManagedWriter.Close`
unfoldable pub close_writer : ℕ → LinkManager → LinkManager
unfolding remove_writer
close_writer writer m = let m' = remove_writer writer m in record m' { closed = writer ∷ m'.closed }

-- The loop over a snapshot of the links, after the lock is given back.
unfoldable pub close_each : Map ℕ Link → LinkManager → LinkManager
unfolding close_writer
close_each [] m = m
close_each ((writer, link) ∷ rest) m =
    let m' = close_writer writer m in
    close_each rest (record m' { interrupted = link.reader ∷ m'.interrupted })

unfoldable pub close_all : LinkManager → LinkManager
unfolding close_each
close_all m = close_each m.links m

unfoldable pub matched : String → Map ℕ Link → Map ℕ Link
matched ip [] = []
matched ip ((writer, link) ∷ rest) =
    let others = matched ip rest in if link.ip == ip then (writer, link) ∷ others else others

unfoldable pub close_by_ip : String → LinkManager → LinkManager × ℕ
unfolding matched close_each
close_by_ip ip m =
    if ip == ""
    then (m, 0)
    else (let links = matched ip m.links in (close_each links m, length links))
