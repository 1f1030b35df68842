-- ===== src/Sst/Iterator/Samples.antt =====
-- An iterator over the table of two blocks.
use slatedb_go.Prelude.{◌≡◌, refl, arith, map, []}
use slatedb_go.Prelude.Result.{ok}
use slatedb_go.Compress.{copying, copying-IsLossless}
use slatedb_go.Block.Iterator.Drain.{row_entry}
use slatedb_go.State.Listed.{listed_deques, listed_deques-IsDeque}
use slatedb_go.Sst.{Handle, new_id_wal}
use slatedb_go.Sst.Index.Plain.{plain_buffers, plain_buffers-IsReadBack}
use slatedb_go.Sst.Build.Kept.{plain_entry}
use slatedb_go.Sst.Read.{bytes_blob, bytes_blob-Has}
use slatedb_go.Sst.Blocks.Samples.{
  conf, rows, no_probes, two_rows, built, object, sizes, copying-IsLong, entries,
}
use slatedb_go.Sst.Iterator.{
  TableStore, Texts, TableIterator, new_table_iterator, collect, over_objects,
}
use slatedb_go.Sst.Iterator.Rows.{build-collect}

abbrev no_texts : Texts
no_texts = record { of_block = λ w. ""; of_fetch = λ h e. "" }

abbrev handle : Handle
handle = record { id = new_id_wal 1; info = built.0.info }

abbrev store : TableStore
store = over_objects copying plain_buffers (λ i. []) [] (λ h. bytes_blob object)

build-collect_example :
    (it : TableIterator) × (new_table_iterator store handle ≡ ok it)
    × (collect store plain_buffers no_texts 3 2 it ≡ ok (map row_entry (map plain_entry rows)))
build-collect_example =
    build-collect listed_deques listed_deques-IsDeque copying copying-IsLossless copying-IsLong
      plain_buffers plain_buffers-IsReadBack no_probes (λ n. ground arith) (λ i. []) []
      (λ h. bytes_blob object) no_texts handle 0 conf rows two_rows.0 built.0 two_rows.1 built.1
      sizes.0 entries (omega arith) (bytes_blob-Has object) sizes.1 sizes.2 refl
