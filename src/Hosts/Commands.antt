-- ===== src/Hosts/Commands.antt =====
-- src/hosts/broadcaster.py and src/hosts/viewer.py: the shell commands that the processes of the
-- hosts run, and the time stamp that each appends to its log.
use p2p_livestreaming.Prelude.{List, [], ◌∷◌, ◌++◌, Bytes, codes, join}
use p2p_livestreaming.Hosts.{
  stream_key, Job, stream_service, stream_peer, view_service, view_peer, notify_heartbeat, Effect,
  system,
}

-- `"date +\%s\%3N >> " + out_file`
abbrev pub stamp : Bytes → Effect
stamp out_file = system (codes "date +\\%s\\%3N >> " ++ out_file)

-- `PEER_PORT` in decimal.
abbrev peer_port_text : Bytes
peer_port_text = codes "2000"

abbrev rtmp_url : Bytes → Bytes
rtmp_url ip = codes "rtmp://" ++ ip ++ codes "/live/" ++ stream_key

-- The words that the two `ffmpeg` calls share.
abbrev pub ffmpeg : Bytes → Bytes → Bytes → List Bytes
ffmpeg video_file target out_file =
    codes "ffmpeg"
    ∷ codes "-re"
    ∷ codes "-i"
    ∷ video_file
    ∷ codes "-flvflags"
    ∷ codes "no_duration_filesize"
    ∷ codes "-max_muxing_queue_size"
    ∷ codes "8192"
    ∷ codes "-f"
    ∷ codes "flv"
    ∷ target
    ∷ codes "2>&1"
    ∷ codes ">"
    ∷ out_file
    ∷ []

-- The words that the two `mplayer` calls share.
abbrev pub mplayer : Bytes → Bytes → Bytes → List Bytes
mplayer dump_file source out_file =
    codes "mplayer"
    ∷ codes "-nocorrect-pts"
    ∷ codes "-nocache"
    ∷ codes "-nosound"
    ∷ codes "-vo"
    ∷ codes "null"
    ∷ codes "-noidle"
    ∷ codes "-dumpstream"
    ∷ codes "-dumpfile"
    ∷ dump_file
    ∷ source
    ∷ codes "2>&1"
    ∷ codes ">"
    ∷ out_file
    ∷ []

-- What a process runs in a shell, nothing for the heartbeat of the CDN server; `file` is the video
-- of the broadcaster or the dump file of the viewer.
unfoldable pub job_effects : (my_ip file : Bytes) → Job → List Effect
unfolding join
job_effects my_ip file (stream_service target_ip out_file) =
    system (join (codes " ") (ffmpeg file (rtmp_url target_ip) out_file)) ∷ stamp out_file ∷ []
job_effects my_ip file (stream_peer target_ip out_file) =
    system (
      join (codes " ")
        (ffmpeg file (codes "tcp://" ++ target_ip ++ codes ":" ++ peer_port_text) out_file))
    ∷ stamp out_file
    ∷ []
job_effects my_ip file (view_service source_ip out_file) =
    system (join (codes " ") (mplayer file (rtmp_url source_ip) out_file)) ∷ stamp out_file ∷ []
job_effects my_ip file (view_peer out_file) =
    system (
      join (codes " ") (
        mplayer file
          (codes "ffmpeg://tcp://" ++ my_ip ++ codes ":" ++ peer_port_text ++ codes "?listen")
          out_file))
    ∷ stamp out_file
    ∷ []
job_effects my_ip file (notify_heartbeat connection) = []
