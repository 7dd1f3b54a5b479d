-- ===== src/Buffer/Alloc.antt =====
-- What the buffer uses of std::vector<char>. How much the library allocates is a parameter.
use musketeer.Prelude.{ℕ, ◌^◌, ◌≤◌, ◌<◌, ltb, if◌then◌else◌}
use musketeer.Buffer.Storage.{Memory}

-- `size` elements in a storage of `cap` bytes. The bytes past `size` belong to the vector too.
pub record Vector : Type 0 where
  pub size : ℕ
  pub cap : ℕ
  pub mem : Memory

-- The choices of the library: the capacity after `resize` past the old one, that after
-- `shrink_to_fit`, and what a byte holds that nobody has written.
pub record Allocator : Type 0 where
  pub grown : ℕ → ℕ → ℕ → ℕ
  pub shrunk : ℕ → ℕ → ℕ
  pub fresh : ℕ → ℕ

-- `max_size()` is below this.
abbrev pub size_limit : ℕ
size_limit = 2 ^ 63

-- What the standard says of them.
pub record IsStandard (a : Allocator) : Type 0 where
  pub grown_fits : (size cap n : ℕ) → n ≤ a.grown size cap n
  pub grown_small : (size cap n : ℕ) → n < size_limit → a.grown size cap n < size_limit
  pub shrunk_fits : (size cap : ℕ) → size ≤ cap → size ≤ a.shrunk size cap
  pub shrunk_le : (size cap : ℕ) → size ≤ cap → a.shrunk size cap ≤ cap

-- `vector(n)`: `n` zeros.
abbrev pub allocate : Allocator → ℕ → Vector
allocate a n = record { size = n; cap = n; mem = λ i. if ltb i n then 0 else a.fresh i }

-- `resize(n)`: the elements stay, new ones are 0; a new storage holds nothing past the elements.
abbrev pub resize : Allocator → Vector → ℕ → Vector
resize a v n =
    if ltb v.cap n
    then record {
      size = n;
      cap = a.grown v.size v.cap n;
      mem = λ i. if ltb i v.size then v.mem i else if ltb i n then 0 else a.fresh i;
    }
    else record v {
      size = n;
      mem = λ i. if ltb i v.size then v.mem i else if ltb i n then 0 else v.mem i;
    }

-- `shrink_to_fit()`: a new storage holds the elements only.
abbrev pub shrink_to_fit : Allocator → Vector → Vector
shrink_to_fit a v =
    if ltb (a.shrunk v.size v.cap) v.cap
    then record {
      size = v.size;
      cap = a.shrunk v.size v.cap;
      mem = λ i. if ltb i v.size then v.mem i else a.fresh i;
    }
    else v
