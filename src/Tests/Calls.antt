-- ===== src/Tests/Calls.antt =====
-- An etcd that counts the calls that were made of it.
use sd_03_distributed_cache.Prelude.{ℕ, ◌+◌, none, [], ok}
use sd_03_distributed_cache.Discovery.{Etcd}

abbrev pub counting : Etcd ℕ ℕ ℕ
counting = record {
  client = λ w host port. (w + 1, ok w);
  lease = λ w handle ttl. (w + 1, ok w);
  put = λ w handle key value lease. (w + 1, none);
  refresh = λ w lease. (w + 1, none);
  revoke = λ w lease. (w + 1, none);
  close = λ w handle. (w + 1, none);
  get_prefix = λ w handle prefix. (w, ok []);
  add_watch = λ w handle prefix. (w + 1, ok w);
  cancel_watch = λ w handle id. (w + 1, none);
}
