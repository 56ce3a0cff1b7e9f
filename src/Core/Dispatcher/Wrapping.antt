-- ===== src/Core/Dispatcher/Wrapping.antt =====
-- What a write or a read does on its way through the wrappers of a link: common/rate/writer.go,
-- common/rate/reader.go, core/xray/app/dispatcher/countreader.go, common/counter/xraytraffic.go and
-- `ManagedWriter.WriteMultiBuffer` of core/xray/app/dispatcher/linkmanager.go. Only the sizes of the
-- buffers matter. Xray's `SizeStatWriter` adds the size to its counter and writes.
use mathlib.Core.List.{append_assoc}
use ljfxznode.Common.{
  ℕ, ◌+◌, ◌≡◌, ap, refl, Bool, false, Option, none, some, List, [], ◌∷◌, ◌++◌, nat_key, text_key,
  ◌==◌, if◌then◌else◌, lookup,
}
use ljfxznode.Limiter.State.{Externals}
use ljfxznode.Limiter.Limit.{check_limit}
use ljfxznode.Core.Dispatcher.{
  Inbound, Client, Direction, up, down, Writer, managed, Reader, TransportLink, Server, linked,
  client_of, admit, limit_writer, limit_reader, link_client, get_link, wrap_link,
}

-- What is done with a number of bytes, in order.
pub data Effect (x : Externals) : Type 0 where
  count : Direction → Client → ℕ → Effect x
  wait : x.Bucket → ℕ → Effect x
  reach : ℕ → ℕ → Effect x
  drain : ℕ → Effect x

abbrev pub size_of : Option ℕ → ℕ
size_of none = 0
size_of (some n) = n

module _ {x : Externals} where
  unfoldable pub write : Writer x → ℕ → List (Effect x)
  write (Writer.pipe p) n = reach p n ∷ []
  write (managed m w) n = write w n
  write (Writer.limited b w) n = wait b n ∷ write w n
  write (Writer.counted d c w) n = count d c n ∷ write w n

  -- A wrapper acts on what was read, where it is not empty; `none` is an error.
  unfoldable pub after_read : Effect x → List (Effect x) × Option ℕ → List (Effect x) × Option ℕ
  after_read e (done, none) = (done, none)
  after_read e (done, some n) = (if n == 0 then done else done ++ (e ∷ []), some n)

  -- A read of the pipe gives `got`.
  unfoldable pub read : Reader x → Option ℕ → List (Effect x) × Option ℕ
  unfolding after_read
  read (Reader.pipe p) got = (drain p ∷ [], got)
  read (Reader.limited b r) got = after_read (wait b (size_of got)) (read r got)
  read (Reader.counted d c r) got = after_read (count d c (size_of got)) (read r got)

  -- The tokens that a limited connection waits for.
  abbrev pub waits : Option x.Bucket → ℕ → List (Effect x)
  waits none n = []
  waits (some b) n = wait b n ∷ []

  write-limit_writer :
      (bucket : Option x.Bucket) (w : Writer x) (n : ℕ)
      → write (limit_writer bucket w) n ≡ waits bucket n ++ write w n
  unfolding write limit_writer
  write-limit_writer none w n = refl
  write-limit_writer (some b) w n = refl

module _ {x : Externals} where
  -- A connection that `getLink` lets in: the bytes that the client sends are counted as upload, those
  -- that it gets as download, each once and for its user; both wait for the bucket of the verdict; and
  -- what is written at one link's writer reaches the pipe that the other's reader drains.
  pub get_link-write :
      (now choice : ℕ) (inbound : Option Inbound) (tcp : Bool) (s : Server x) (c : Client) (p : ℕ)
      → client_of inbound ≡ some c
      → lookup c.tag s.registry ≡ some p
      → let v = check_limit (s.limiters p) now choice c.email c.ip tcp in
        v.reject ≡ false
        → (near : TransportLink x) × (far : TransportLink x) × ((get_link now choice inbound tcp
              s).1
            ≡ linked near far (some p))
          × ((n : ℕ)
              → write near.writer n ≡ count up c n ∷ (waits v.bucket n ++ (reach s.fresh n ∷ [])))
          × ((n : ℕ)
              → write far.writer n
                ≡ count down c n ∷ (waits v.bucket n ++ (reach (s.fresh + 1) n ∷ [])))
          × ((got : Option ℕ) → read near.reader got ≡ (drain (s.fresh + 1) ∷ [], got))
          × ((got : Option ℕ) → read far.reader got ≡ (drain s.fresh ∷ [], got))
  unfolding get_link admit link_client write read
  get_link-write now choice inbound tcp s c p known listed passed =
      let v = check_limit (s.limiters p) now choice c.email c.ip tcp in
      let n = s.fresh in
      (
        record {
          reader = Reader.pipe (n + 1);
          writer = Writer.counted up c (limit_writer v.bucket (managed (n + 2) (Writer.pipe n)));
        },
        record {
          reader = Reader.pipe n;
          writer = Writer.counted down c (limit_writer v.bucket (Writer.pipe (n + 1)));
        },
        rw (known, get_link, listed, admit, passed) refl,
        λ m. ap (λ es. count up c m ∷ es) (write-limit_writer v.bucket _ m),
        λ m. ap (λ es. count down c m ∷ es) (write-limit_writer v.bucket _ m),
        λ got. refl,
        λ got. refl,
      )

  read_limited :
      (bucket : Option x.Bucket) (c : Client) (r : Reader x) (n : ℕ) (done : List (Effect x))
      → read r (some n) ≡ (done, some n)
      → (n == 0) ≡ false
      → read (Reader.counted up c (limit_reader bucket r)) (some n)
        ≡ (done ++ (waits bucket n ++ (count up c n ∷ [])), some n)
  unfolding read limit_reader
  read_limited none c r n done h some_bytes = rw (h, some_bytes) refl
  read_limited (some b) c r n done h some_bytes =
      rw (h, some_bytes) (ap (λ es. (es, some n)) (append_assoc done _ _))

  -- A connection that `DispatchLink` lets in: what comes back is counted as download and waits for the
  -- bucket; what is read, if there is something, waits for it too and is counted as upload.
  pub wrap_link-flow :
      (now choice : ℕ) (inbound : Option Inbound) (tcp : Bool) (link : TransportLink x)
      (s : Server x) (c : Client) (p : ℕ)
      → client_of inbound ≡ some c
      → lookup c.tag s.registry ≡ some p
      → let v = check_limit (s.limiters p) now choice c.email c.ip tcp in
        v.reject ≡ false
        → (wrapped : TransportLink x) × ((wrap_link now choice inbound tcp link s).1
            ≡ some (wrapped, some p))
          × ((n : ℕ)
              → write wrapped.writer n ≡ count down c n ∷ (waits v.bucket n ++ write link.writer n))
          × ((n : ℕ) (done : List (Effect x))
              → read link.reader (some n) ≡ (done, some n)
              → (n == 0) ≡ false
              → read wrapped.reader (some n)
                ≡ (done ++ (waits v.bucket n ++ (count up c n ∷ [])), some n))
  unfolding wrap_link admit write
  wrap_link-flow now choice inbound tcp link s c p known listed passed =
      let v = check_limit (s.limiters p) now choice c.email c.ip tcp in
      (
        record {
          reader = Reader.counted up c (limit_reader v.bucket link.reader);
          writer = Writer.counted down c (limit_writer v.bucket (managed s.fresh link.writer));
        },
        rw (known, wrap_link, listed, admit, passed) refl,
        λ m. ap (λ es. count down c m ∷ es) (write-limit_writer v.bucket _ m),
        λ m done h some_bytes. read_limited v.bucket c link.reader m done h some_bytes,
      )
