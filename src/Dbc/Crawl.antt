-- ===== src/Dbc/Crawl.antt =====
-- The database of crawled data.
use mws.Prelude.{
  ℕ, ◌+◌, ◌<◌, ◌≤◌, ◌≡◌, ◌%◌, refl, none, some, List, [], ◌∷◌, arith, All, All-imp, ◌==◌,
  if◌then◌else◌,
}
use mws.Prelude.Bytes.{Bytes}
use mws.Prelude.Bits.{u32_mod}
use mws.Dbc.{MemCrawlDb, find_key, put_data, get_data}

-- Every id that was given out is between 1 and the last one.
pub record IsNumbered (db : MemCrawlDb) : Type 0 where
  pub ids : All (λ (e : ℕ × Bytes). (1 ≤ e.0) × (e.0 ≤ db.next_crawl_id)) db.data_

find_key_above :
    (entries : List (ℕ × Bytes)) (last key : ℕ)
    → All (λ (e : ℕ × Bytes). (1 ≤ e.0) × (e.0 ≤ last)) entries
    → last < key
    → find_key key entries ≡ none
unfolding find_key
find_key_above [] last key a h = refl
find_key_above ((k, v) ∷ rest) last key a h =
    ground (arith, find_key_above rest last key a.1 h, a.0)

put_data_new :
    (db : MemCrawlDb) (x : Bytes)
    → IsNumbered db
    → db.next_crawl_id + 1 < u32_mod
    → put_data db x ≡ (
      record { data_ = (db.next_crawl_id + 1, x) ∷ db.data_; next_crawl_id = db.next_crawl_id + 1 },
      some (db.next_crawl_id + 1),
    )
unfolding put_data
put_data_new db x v room =
    let small : (db.next_crawl_id + 1) % u32_mod ≡ db.next_crawl_id + 1 = omega arith in
    rw (
      small,
      find_key_above db.data_ db.next_crawl_id (db.next_crawl_id + 1) v.ids (omega arith),
      put_data,
      small,
    )

-- While there is an id left, putting data keeps every id of the database between 1 and the last
-- id given out.
pub put_data-IsNumbered :
    (db : MemCrawlDb) (x : Bytes)
    → IsNumbered db
    → db.next_crawl_id + 1 < u32_mod
    → IsNumbered (put_data db x).0
put_data-IsNumbered db x v room = rw (put_data_new db x v room) (record {
  ids = ((omega arith, omega arith), All-imp (λ e p. (p.0, omega (arith, p.1))) db.data_ v.ids);
})

-- While there is an id left, putting data succeeds with the next id, under which the data is
-- found afterwards; what is found under every other id stays.
pub get_data-put_data :
    (db : MemCrawlDb) (x : Bytes) (j : ℕ)
    → IsNumbered db
    → db.next_crawl_id + 1 < u32_mod
    → ((put_data db x).1 ≡ some (db.next_crawl_id + 1))
      × (get_data (put_data db x).0 j
          ≡ (if db.next_crawl_id + 1 == j then some x else get_data db j))
get_data-put_data db x j v room =
    rw (put_data_new db x v room) (refl, unfold get_data find_key in refl)
