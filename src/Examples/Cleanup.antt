-- ===== src/Examples/Cleanup.antt =====
-- The cleanup and the reading of files on concrete inputs.
use osde2e.Prelude.{
  ◌≡◌, refl, true, false, none, some, List, [], ◌∷◌, map, contains, itoa, if◌then◌else◌, All,
}
use osde2e.Prelude.Int.{pos}
use osde2e.Go.Calls.{replied, refused}
use osde2e.Spi.Cluster.{Cluster}
use osde2e.Ocm.Provider
use osde2e.Ocm.Provider.{OcmCluster, State}
use osde2e.Ocm.Clusters.{ocm_to_spi_cluster}
use osde2e.Prelude.Maps.{lookup, assign}
use osde2e.Ocm.Listing.{ListService, list_owned_clusters, owned_pages, cluster_pages, convert_all}
use osde2e.Krkn.Results.{LogEntry}
use osde2e.Sanitizer.{Sanitizer, default_config}
use osde2e.Cleanup.{Args, connected, collect_active_clusters, cleanup_clusters}
use osde2e.Cleanup.Safety.{
  OnlyAllowed, collect_active_clusters-unsafe, cleanup_clusters-OnlyAllowed,
}
use osde2e.ReadFile.Request.{Field, text, Item, object, array, Params, validate_from}
use osde2e.ReadFile.{
  File, Line, content_of, read_lines_in_range, start_line, sanitize_and_format_lines, format_single,
  execute, read_file_with_line_range, scan_lines,
}
use osde2e.ReadFile.Lines.{
  numbered, selected, read_lines_in_range_lem, sanitize_and_format_lines_lem,
}
use osde2e.ReadFile.Safety.{IsAllowed, execute-IsAllowed}
use osde2e.Examples.Ocm.{start, service, ocm_cluster, timeout, plain_cluster, paged, one_page}

-- Both environments that answer refuse to list.
collect_active_clusters-unsafe_example :
    collect_active_clusters (refused timeout ∷ replied (refused timeout) ∷ []) ≡ replied []
unfolding connected
collect_active_clusters-unsafe_example =
    collect_active_clusters-unsafe (refused timeout ∷ replied (refused timeout) ∷ [])
      (λ e. absurd cc) ((timeout, refl), tt)

abbrev listing : ListService
listing = record (paged (one_page 2)) {
  account = λ cs. replied "tester";
  subscriptions = λ cs. replied (record { items = "c1" ∷ "other" ∷ []; total = 2 });
}

abbrev old_clusters : Args
old_clusters = record { dry_run = false; clusters = true; cluster_id = ""; older_than = 10 }

abbrev owned : List Cluster
owned = plain_cluster (ocm_cluster "c1" Provider.ready) ∷ []

cleanup_clusters-OnlyAllowed_example :
    OnlyAllowed listing
      (service Provider.ready)
      timeout
      2
      100
      old_clusters
      owned
      (cleanup_clusters listing
        (service Provider.ready)
        timeout
        2
        100
        old_clusters
        (replied tt)
        3
        start).1.calls
unfolding list_owned_clusters owned_pages cluster_pages convert_all ocm_to_spi_cluster lookup assign
cleanup_clusters-OnlyAllowed_example =
    cleanup_clusters-OnlyAllowed listing (service Provider.ready) timeout 2 100 old_clusters 3 start
      owned refl tt refl

abbrev log_file : File
log_file = record { lines = "first" ∷ "a key" ∷ "last" ∷ []; scan_error = some timeout }

-- The scan ends with an error after the last line, which lies beyond the range.
read_lines_in_range_lem_example :
    read_lines_in_range (λ path. replied log_file) "build.log" (some (pos 2)) (some (pos 2))
    ≡ selected
        (start_line (some (pos 2)))
        (some (pos 2))
        log_file.scan_error
        (numbered 1 log_file.lines)
read_lines_in_range_lem_example =
    read_lines_in_range_lem (λ path. replied log_file) "build.log" (some (pos 2)) (some (pos 2))
      log_file refl

abbrev sanitizer : Sanitizer
sanitizer = record {
  audit_log = none;
  config = record default_config { max_content_size = pos 5 };
  compiled_rules =
      record {
        rule = record {
          id = "key";
          pattern = "key";
          replacement = "[KEY]";
          category = "token";
          enabled = true;
        };
        regex = record {
          matches = λ t. if contains t "key" then 1 else 0;
          replace = λ t replacement. replacement;
        };
      }
      ∷ [];
}

abbrev log_lines : List Line
log_lines = numbered 1 ("first" ∷ "a key" ∷ "too long" ∷ [])

-- The third line is too large, so the batch fails.
sanitize_and_format_lines_lem_example :
    sanitize_and_format_lines (λ e. "too large") sanitizer 0 "build.log" log_lines
    ≡ map (format_single (λ e. "too large") sanitizer 0 "build.log") log_lines
sanitize_and_format_lines_lem_example =
    sanitize_and_format_lines_lem (λ e. "too large") sanitizer 0 "build.log" log_lines

abbrev request : Params
request = record {
  files = some (array (object (("path", text "build.log") ∷ []) ∷ []));
  sanitize = some (Field.flag false);
}

abbrev artifacts : List LogEntry
artifacts = record { source = "build.log"; line_count = 3 } ∷ []

abbrev whole_file : File
whole_file = record log_file { scan_error = none }

execute-IsAllowed_example :
    (logs : List LogEntry) × (some artifacts ≡ some logs)
    × (item : Item) × (items : List Item) × (request.files ≡ some (array (item ∷ items)))
    × All (IsAllowed logs) (item ∷ items)
unfolding execute validate_from lookup read_file_with_line_range scan_lines itoa
execute-IsAllowed_example =
    execute-IsAllowed (λ path. replied whole_file) (λ e. "") none 0 request (some artifacts)
      (content_of "1\tfirst\n2\ta key\n3\tlast") refl
