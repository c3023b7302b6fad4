-- ===== src/Joblog/Tests.antt =====
-- Tests of the tips, and the theorems at concrete entries.
use alike.Base.{◌≡◌, refl, codes}
use alike.Joblog.{system_link}

link_test :
    system_link (codes "Restoring") (codes "Restoring: web (ID 12) now")
    ≡ codes
        "Restoring: <a href=\"javascript:viewVmDetails(12, true);\"><img title='View System Details' style='height:12px; width:12px' src='/images/vm-details.png'></a> <a title='Jump To System' class='clickable' href=\"javascript:jumpToAnchor('vid_12','detailModal');\">web </a>  now"
unfolding system_link
link_test = refl
